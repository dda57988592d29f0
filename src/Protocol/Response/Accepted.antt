-- ===== src/Protocol/Response/Accepted.antt =====
-- Which buffers Response::deserialize of src/protocol/response.cpp accepts: those that a server writes.
use mathlib.Core.Path.{subst}
use encrypted_backup_client.Base.{
  List, ℕ, ◌+◌, ◌-◌, ◌/◌, ◌%◌, ◌≤◌, ◌<◌, ◌^◌, ◌≡◌, ◌↔◌, refl, sym, ap, ◌∙◌, Bool-cases, inl, inr,
  [], ◌∷◌, ◌++◌, ltb, length, drop, slice, drop_add, take-append-drop, All-drop, arith, Text,
  IsBytes, ok, ok-injective,
}
use encrypted_backup_client.Protocol.Bytes.{Host, IsNetworkOrder, be_bytes, from_be}
use encrypted_backup_client.Protocol.Response.{Response, deserialize}
use encrypted_backup_client.Protocol.Response.Reference.{
  read_response, parse_response, deserialize-eq-parse_response, length-slice, IsBytes-slice,
}
use encrypted_backup_client.Protocol.Response.RoundTrip.{
  IsResponse, from_id, write_response, deserialize-write_response,
}

-- Bytes in network byte order are those of their value.
be_bytes_one : (v a : ℕ) → v % 256 ≡ a → be_bytes 1 v ≡ a ∷ []
unfolding be_bytes
be_bytes_one v a ha = rw ha refl

be_bytes_two : (v a b : ℕ) → v % 256 ≡ b → v / 256 % 256 ≡ a → be_bytes 2 v ≡ a ∷ b ∷ []
unfolding be_bytes
be_bytes_two v a b hb ha = rw (hb, ha) refl

be_bytes_four :
    (v a b c d : ℕ)
    → v % 256 ≡ d
    → v / 256 % 256 ≡ c
    → v / 256 / 256 % 256 ≡ b
    → v / 256 / 256 / 256 % 256 ≡ a
    → be_bytes 4 v ≡ a ∷ b ∷ c ∷ d ∷ []
unfolding be_bytes
be_bytes_four v a b c d hd hc hb ha = rw (hd, hc, hb, ha) refl

be_bytes-from_be_one :
    (bs : Text) → IsBytes bs → length bs ≡ 1 → (be_bytes 1 (from_be bs) ≡ bs) × (from_be bs < 2 ^ 8)
unfolding from_be
be_bytes-from_be_one [] h l = absurd (omega arith)
be_bytes-from_be_one (a ∷ []) h l = (be_bytes_one _ a (omega arith), omega arith)
be_bytes-from_be_one (a ∷ b ∷ bs) h l = absurd (omega arith)

be_bytes-from_be_two :
    (bs : Text)
    → IsBytes bs
    → length bs ≡ 2
    → (be_bytes 2 (from_be bs) ≡ bs) × (from_be bs < 2 ^ 16)
unfolding from_be
be_bytes-from_be_two [] h l = absurd (omega arith)
be_bytes-from_be_two (a ∷ []) h l = absurd (omega arith)
be_bytes-from_be_two (a ∷ b ∷ []) h l =
    (be_bytes_two _ a b (omega arith) (omega arith), omega arith)
be_bytes-from_be_two (a ∷ b ∷ c ∷ bs) h l = absurd (omega arith)

be_bytes-from_be_four :
    (bs : Text)
    → IsBytes bs
    → length bs ≡ 4
    → (be_bytes 4 (from_be bs) ≡ bs) × (from_be bs < 2 ^ 32)
unfolding from_be
be_bytes-from_be_four [] h l = absurd (omega arith)
be_bytes-from_be_four (a ∷ []) h l = absurd (omega arith)
be_bytes-from_be_four (a ∷ b ∷ []) h l = absurd (omega arith)
be_bytes-from_be_four (a ∷ b ∷ c ∷ []) h l = absurd (omega arith)
be_bytes-from_be_four (a ∷ b ∷ c ∷ d ∷ []) h l =
    (be_bytes_four _ a b c d (omega arith) (omega arith) (omega arith) (omega arith), omega arith)
be_bytes-from_be_four (a ∷ b ∷ c ∷ d ∷ e ∷ bs) h l = absurd (omega arith)

-- A slice with what follows it.
slice-append-drop :
    {A : Type 0} (offset n next : ℕ) (d : List A)
    → offset + n ≡ next
    → slice offset n d ++ drop next d ≡ drop offset d
slice-append-drop offset n next d ends =
    rw (← ends) (
      ap (◌++◌ (slice offset n d)) (sym (drop_add offset n d)) ∙ take-append-drop n (drop offset d))

module _ (d : Text) (bytes : IsBytes d) (size : ℕ) (large : 279 ≤ size) (fits : 7 + size ≤ length d)
    (counted : from_be (slice 3 4 d) ≡ size) where
  abbrev k : ℕ
  k = size - 279

  abbrev r : Response
  r = read_response size d

  abbrev rest : Text
  rest = drop (7 + size) d

  one :
      (offset : ℕ)
      → offset + 1 ≤ length d
      → (be_bytes 1 (from_be (slice offset 1 d)) ≡ slice offset 1 d)
        × (from_be (slice offset 1 d) < 2 ^ 8)
  one offset h =
      be_bytes-from_be_one _ (IsBytes-slice offset 1 d bytes) (length-slice d offset 1 _ refl h)

  two :
      (offset : ℕ)
      → offset + 2 ≤ length d
      → (be_bytes 2 (from_be (slice offset 2 d)) ≡ slice offset 2 d)
        × (from_be (slice offset 2 d) < 2 ^ 16)
  two offset h =
      be_bytes-from_be_two _ (IsBytes-slice offset 2 d bytes) (length-slice d offset 2 _ refl h)

  four :
      (offset : ℕ)
      → offset + 4 ≤ length d
      → (be_bytes 4 (from_be (slice offset 4 d)) ≡ slice offset 4 d)
        × (from_be (slice offset 4 d) < 2 ^ 32)
  four offset h =
      be_bytes-from_be_four _ (IsBytes-slice offset 4 d bytes) (length-slice d offset 4 _ refl h)

  read_response-IsResponse : IsResponse r
  unfolding read_response
  read_response-IsResponse = record {
    version_range = (one 0 (omega arith)).1;
    code_range = (two 1 (omega arith)).1;
    size_range = let e = (four 3 (omega arith)).1 in omega arith;
    size_counts = omega (arith, length-slice d 23 k _ refl (omega arith));
    user_id_size = length-slice d 7 16 _ refl (omega arith);
    user_id_bytes = IsBytes-slice 7 16 d bytes;
    key_bytes = IsBytes-slice 23 k d bytes;
    file_size_range = (four (23 + k) (omega arith)).1;
    file_name_size = length-slice d (27 + k) 255 _ refl (omega arith);
    file_name_bytes = IsBytes-slice (27 + k) 255 d bytes;
    checksum_range = (four (282 + k) (omega arith)).1;
  }

  payload_written : from_id r.payload rest ≡ drop 7 d
  unfolding read_response
  payload_written =
      rw
        (
          (four (282 + k) (omega arith)).0,
          slice-append-drop (282 + k) 4 (7 + size) d (omega arith),
          slice-append-drop (27 + k) 255 (282 + k) d (omega arith),
          (four (23 + k) (omega arith)).0,
          slice-append-drop (23 + k) 4 (27 + k) d (omega arith),
          slice-append-drop 23 k (23 + k) d refl,
          slice-append-drop 7 16 23 d refl,
        )
        refl

  response_written : write_response r rest ≡ d
  unfolding write_response read_response
  response_written =
      rw
        (
          payload_written,
          (one 0 (omega arith)).0,
          (two 1 (omega arith)).0,
          ap (be_bytes 4) (sym counted) ∙ (four 3 (omega arith)).0,
          slice-append-drop 3 4 7 d refl,
          slice-append-drop 1 2 3 d refl,
        )
        (slice-append-drop 0 1 1 d refl)

-- What a buffer that was accepted has passed.
parse_response-eq-ok :
    (d : Text) (r : Response)
    → parse_response d ≡ ok r
    → let size = from_be (slice 3 4 d) in
      (279 ≤ size) × (7 + size ≤ length d) × (read_response size d ≡ r)
unfolding parse_response
parse_response-eq-ok d r h = elim (Bool-cases (ltb (length d) 7)) [
  | inl short ↦ let bad = rw short at h in cc
  | inr long ↦
      let h1 = rw long at h in
      elim (Bool-cases (ltb (from_be (slice 3 4 d)) 279)) [
        | inl small ↦ let bad = rw small at h1 in cc
        | inr large ↦
            let h2 = rw large at h1 in
            elim (Bool-cases (ltb (length d) (7 + from_be (slice 3 4 d)))) [
              | inl cut ↦ let bad = rw cut at h2 in cc
              | inr fits ↦ (ground arith, ground arith, ok-injective (rw fits at h2))
            ]
      ]
]

-- A buffer is accepted as a response exactly if it is that response as a server writes it, in network
-- byte order, with any bytes behind; and every response that was accepted has its arrays at their
-- sizes, its numbers in their ranges, and a payload size that counts its fields.
pub deserialize_iff :
    (h : Host) (d : Text) (r : Response)
    → IsNetworkOrder h
    → IsBytes d
    → (deserialize h d ≡ ok r)
      ↔ (IsResponse r × ((rest : Text) × IsBytes rest × (write_response r rest ≡ d)))
deserialize_iff h d r law bytes = (
  λ accepted.
      let (large, fits, same) =
        parse_response-eq-ok d r (sym (deserialize-eq-parse_response h d law bytes) ∙ accepted) in
      let size = from_be (slice 3 4 d) in
      subst
        (λ (q : Response).
          IsResponse q × ((rest : Text) × IsBytes rest × (write_response q rest ≡ d)))
        same
        (
          read_response-IsResponse d bytes size large fits refl,
          (
            drop (7 + size) d,
            All-drop _ (7 + size) d bytes,
            response_written d bytes size large fits refl,
          ),
        ),
  λ written.
      let (valid, (rest, more, e)) = written in
      ap (deserialize h) (sym e) ∙ deserialize-write_response h r rest law valid more,
)
