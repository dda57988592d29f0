-- ===== src/Protocol/Formatting/Hexify.antt =====
-- The rows of `hexify` (src/protocol/protocol_formatting.cpp) against the plain hexadecimal text of
-- src/utils/encoding_utils.cpp.
use encrypted_backup_client.Base.{
  ℕ, zero, suc, ◌+◌, ◌-◌, ◌%◌, ◌<◌, ◌≤◌, ◌≡◌, refl, sym, ap, ◌∙◌, some, [], ◌∷◌, ◌++◌, leb, ◌==◌,
  if◌then◌else◌, le→ltb, length, length-take, length-drop, drop, slice, arith, Text, ok, false,
}
use encrypted_backup_client.Utils.Encoding.{hex_stream, bytes_to_hex}
use encrypted_backup_client.Utils.Encoding.Laws.{put_byte_pair}
use encrypted_backup_client.Protocol.Formatting.{hex_rows, hexify, cout}

-- A text without the character behind every two; what is left at the end is dropped.
unfoldable pub strip_separators : Text → Text
strip_separators (x ∷ y ∷ separator ∷ rest) = x ∷ y ∷ strip_separators rest
strip_separators s = []

-- The characters that were dropped.
unfoldable pub separators : Text → Text
separators (x ∷ y ∷ separator ∷ rest) = separator ∷ separators rest
separators s = []

-- A newline behind every sixteenth byte, and a blank behind the others.
unfoldable pub row_ends : ℕ → ℕ → Text
row_ends i zero = []
row_ends i (suc n) = (if (i + 1) % 16 == 0 then 10 else b' ') ∷ row_ends (i + 1) n

strip_separators-hex_rows :
    (i : ℕ) (bs : Text) → strip_separators (hex_rows i bs ++ (10 ∷ [])) ≡ hex_stream bs
unfolding strip_separators hex_rows hex_stream
strip_separators-hex_rows i [] = refl
strip_separators-hex_rows i (b ∷ bs) =
    let (x, y, e) = put_byte_pair (b % 256) in
    rw e (ap (λ (t : Text). x ∷ y ∷ t) (strip_separators-hex_rows (i + 1) bs))

separators-hex_rows :
    (i : ℕ) (bs : Text) → separators (hex_rows i bs ++ (10 ∷ [])) ≡ row_ends i (length bs)
unfolding separators hex_rows row_ends
separators-hex_rows i [] = refl
separators-hex_rows i (b ∷ bs) =
    let (x, y, e) = put_byte_pair (b % 256) in
    rw e (
      ap (λ (t : Text). (if (i + 1) % 16 == 0 then 10 else b' ') ∷ t)
        (separators-hex_rows (i + 1) bs))

length-slice :
    (buffer : Text) (start end : ℕ)
    → end ≤ length buffer
    → length (slice start (end - start) buffer) ≡ end - start
length-slice buffer start end h =
    omega (arith, length-take (end - start) (drop start buffer), length-drop start buffer)

-- For a range inside the buffer, what is printed is, without the character behind every byte, what
-- bytes_to_hex gives for the bytes of the range; and these characters are a newline behind every
-- sixteenth byte and a blank behind the others.
pub hexify-bytes_to_hex :
    (buffer : Text) (start end : ℕ)
    → start < end
    → end ≤ length buffer
    → (s : Text) × (hexify (some buffer) start end ≡ ok (cout s))
      × (bytes_to_hex (some (drop start buffer)) (end - start) ≡ ok (strip_separators s))
      × (separators s ≡ row_ends 0 (end - start))
unfolding hexify bytes_to_hex
hexify-bytes_to_hex buffer start end h l =
    let part : Text = slice start (end - start) buffer in
    let inside : leb end start ≡ false = ground arith in
    (
      hex_rows 0 part ++ (10 ∷ []),
      rw (inside, le→ltb (length buffer) end l) refl,
      ap ok (sym (strip_separators-hex_rows 0 part)),
      separators-hex_rows 0 part ∙ ap (row_ends 0) (length-slice buffer start end l),
    )
