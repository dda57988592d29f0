-- ===== src/Utils/Encoding/Laws.antt =====
-- Round trip and failures of the hexadecimal conversion of src/utils/encoding_utils.cpp and
-- include/utils/encoding_utils.h.
use encrypted_backup_client.Base.{
  ℕ, zero, suc, ◌+◌, ◌*◌, ◌/◌, ◌%◌, ◌<◌, ◌≡◌, ◌≢◌, refl, Bool-cases, ltb, inl, inr, false, some, [],
  ◌∷◌, ◌++◌, length, take_all, arith, Text, IsBytes, >>=-eq-ok, ok,
}
use encrypted_backup_client.Utils.Encoding.{
  bad_position, nibble, put_byte, hex_stream, is_space, hex_digit, stoul, hex_byte, hex_bytes,
  magnitude, strip_prefix, digits_value, bytes_to_hex, hex_string_to_byte_array,
}

hex_digit-lt : (c d : ℕ) → hex_digit c ≡ some d → d < 16
unfolding hex_digit
hex_digit-lt c d h = ground arith

-- A digit is no blank.
hex_digit-is_space : (c d : ℕ) → hex_digit c ≡ some d → is_space c ≡ false
unfolding hex_digit is_space
hex_digit-is_space c d h = ground arith

hex_digit-ne-sign : (c d : ℕ) → hex_digit c ≡ some d → (c ≢ b'-') × (c ≢ b'+')
unfolding hex_digit
hex_digit-ne-sign c d h = ground arith

hex_digit-nibble : (n : ℕ) → n < 16 → hex_digit (nibble n) ≡ some n
unfolding hex_digit nibble
hex_digit-nibble n h = ground arith

magnitude_pair :
    (a b x y : ℕ)
    → hex_digit a ≡ some x
    → hex_digit b ≡ some y
    → magnitude false 0 (a ∷ b ∷ []) ≡ some (x * 16 + y, 2)
unfolding magnitude strip_prefix digits_value
magnitude_pair a b x y p q = ground (arith, hex_digit-lt a x p, hex_digit-lt b y q)

stoul_pair :
    (a b x y : ℕ)
    → hex_digit a ≡ some x
    → hex_digit b ≡ some y
    → stoul 0 (a ∷ b ∷ []) ≡ some (x * 16 + y, 2)
unfolding stoul
stoul_pair a b x y p q =
    ground (arith, hex_digit-is_space a x p, hex_digit-ne-sign a x p, magnitude_pair a b x y p q)

hex_byte-put_byte : (offset b : ℕ) → b < 256 → hex_byte offset (put_byte b) ≡ ok b
unfolding hex_byte put_byte hex_digit
hex_byte-put_byte offset b h = ground (
  arith,
  stoul_pair b'0' (nibble b) 0 b refl,
  hex_digit-nibble b,
  hex_digit-nibble (b / 16),
  hex_digit-nibble (b % 16),
  stoul_pair (nibble (b / 16)) (nibble (b % 16)) (b / 16) (b % 16),
)

pub put_byte_pair : (b : ℕ) → (x : ℕ) × (y : ℕ) × (put_byte b ≡ x ∷ y ∷ [])
unfolding put_byte
put_byte_pair b = elim (Bool-cases (ltb b 16)) [
  | inl small ↦ (b'0', nibble b, rw small)
  | inr large ↦ (nibble (b / 16), nibble (b % 16), rw large)
]

hex_bytes-nil : (offset : ℕ) → hex_bytes offset [] ≡ ok []
unfolding hex_bytes
hex_bytes-nil offset = refl

hex_bytes-put_byte :
    (offset b : ℕ) (rest values : Text)
    → b < 256
    → hex_bytes (offset + 2) rest ≡ ok values
    → hex_bytes offset (put_byte b ++ rest) ≡ ok (b ∷ values)
unfolding hex_bytes
hex_bytes-put_byte offset b rest values h r =
    let (x, y, e) = put_byte_pair b in
    let head : hex_byte offset (x ∷ y ∷ []) ≡ ok b = rw e at (hex_byte-put_byte offset b h) in
    rw e (ground (arith, head, r))

hex_bytes-hex_stream :
    (offset : ℕ) (bs : Text) → IsBytes bs → hex_bytes offset (hex_stream bs) ≡ ok bs
unfolding hex_stream
hex_bytes-hex_stream offset [] h = hex_bytes-nil offset
hex_bytes-hex_stream offset (b ∷ bs) h =
    let low : b % 256 ≡ b = omega (arith, h.0) in
    rw low (
      hex_bytes-put_byte offset b (hex_stream bs) bs h.0 (hex_bytes-hex_stream (offset + 2) bs h.1))

pub length-hex_stream : (bs : Text) → length (hex_stream bs) ≡ length bs * 2
unfolding hex_stream
length-hex_stream [] = refl
length-hex_stream (b ∷ bs) =
    let (x, y, e) = put_byte_pair (b % 256) in rw e (omega (arith, length-hex_stream bs))

-- Formatting the bytes of an array of n bytes succeeds, and reading the text back gives the array.
pub hex_string_to_byte_array-bytes_to_hex :
    (n : ℕ) (bs : Text)
    → IsBytes bs
    → length bs ≡ n
    → (s : Text) × (bytes_to_hex (some bs) n ≡ ok s) × (hex_string_to_byte_array n s ≡ ok bs)
unfolding bytes_to_hex hex_string_to_byte_array
hex_string_to_byte_array-bytes_to_hex n bs h l = (
  hex_stream bs,
  rw (take_all n bs (omega arith)),
  ground (arith, length-hex_stream bs, hex_bytes-hex_stream 0 bs h),
)

hex_byte-lt : (offset : ℕ) (s : Text) (v : ℕ) → hex_byte offset s ≡ ok v → v < 256
unfolding hex_byte bad_position
hex_byte-lt offset s v h = ground arith

hex_bytes_valid :
    (offset n : ℕ) (s bs : Text)
    → length s ≡ n * 2
    → hex_bytes offset s ≡ ok bs
    → IsBytes bs × (length bs ≡ n)
unfolding hex_bytes
hex_bytes_valid offset zero [] bs l h = ground arith
hex_bytes_valid offset (suc n) [] bs l h = absurd (omega arith)
hex_bytes_valid offset zero (a ∷ []) bs l h = absurd (omega arith)
hex_bytes_valid offset (suc n) (a ∷ []) bs l h = absurd (omega arith)
hex_bytes_valid offset zero (a ∷ b ∷ rest) bs l h = absurd (omega arith)
hex_bytes_valid offset (suc n) (a ∷ b ∷ rest) bs l h =
    let (v, p, q) = >>=-eq-ok (hex_byte offset (a ∷ b ∷ [])) _ h in
    let (vs, r, e) = >>=-eq-ok (hex_bytes (offset + 2) rest) _ q in
    let ih : IsBytes vs × (length vs ≡ n) =
      hex_bytes_valid (offset + 2) n rest vs (omega arith) r in
    ground (arith, hex_byte-lt offset _ v p, ih)

-- What the parser accepts is an array of exactly n bytes, read from a text of 2 n characters.
pub hex_string_to_byte_array_valid :
    (n : ℕ) (s bs : Text)
    → hex_string_to_byte_array n s ≡ ok bs
    → (length s ≡ n * 2) × IsBytes bs × (length bs ≡ n)
unfolding hex_string_to_byte_array
hex_string_to_byte_array_valid n s bs h = ground (arith, hex_bytes_valid 0 n s bs)

magnitude_single : (d k : ℕ) → hex_digit d ≡ some k → magnitude false 1 (d ∷ []) ≡ some (k, 2)
unfolding magnitude strip_prefix digits_value
magnitude_single d k p = ground (arith, hex_digit-lt d k p)

stoul_plus : (d k : ℕ) → hex_digit d ≡ some k → stoul 0 (b'+' ∷ d ∷ []) ≡ some (k, 2)
unfolding stoul is_space
stoul_plus d k p = ground (arith, magnitude_single d k p)

stoul_blank : (d k : ℕ) → hex_digit d ≡ some k → stoul 0 (b' ' ∷ d ∷ []) ≡ some (k, 2)
unfolding stoul is_space
stoul_blank d k p =
    ground (arith, hex_digit-is_space d k p, hex_digit-ne-sign d k p, magnitude_single d k p)

hex_bytes_pair :
    (offset a b k : ℕ) (rest values : Text)
    → stoul 0 (a ∷ b ∷ []) ≡ some (k, 2)
    → k < 16
    → hex_bytes (offset + 2) rest ≡ ok values
    → hex_bytes offset (a ∷ b ∷ rest) ≡ ok (k ∷ values)
unfolding hex_bytes hex_byte
hex_bytes_pair offset a b k rest values e small accepted = ground (arith, e, accepted)

-- A plus sign or a blank in front of a hexadecimal digit is read as the digit 0: the parser does not
-- reject the pair, at any offset and before any rest that is accepted, although neither character is
-- hexadecimal; the byte is the value of the digit.
pub hex_bytes_sign :
    (offset d k : ℕ) (rest values : Text)
    → hex_digit d ≡ some k
    → hex_bytes (offset + 2) rest ≡ ok values
    → (hex_bytes offset (b'+' ∷ d ∷ rest) ≡ ok (k ∷ values))
      × (hex_bytes offset (b' ' ∷ d ∷ rest) ≡ ok (k ∷ values))
hex_bytes_sign offset d k rest values p accepted =
    let small = hex_digit-lt d k p in
    (
      hex_bytes_pair offset b'+' d k rest values (stoul_plus d k p) small accepted,
      hex_bytes_pair offset b' ' d k rest values (stoul_blank d k p) small accepted,
    )
