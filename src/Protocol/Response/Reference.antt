-- ===== src/Protocol/Response/Reference.antt =====
-- The format of a response, stated by offsets and in network byte order, and its equivalence with
-- Response::deserialize of src/protocol/response.cpp.
use encrypted_backup_client.Base.{
  ℕ, ◌+◌, ◌-◌, ◌≤◌, ◌<◌, ◌≡◌, refl, sym, ◌∙◌, Bool-cases, ltb→lt, inl, inr, [], ◌∷◌, ◌≢◌, none,
  if◌then◌else◌, ltb, length, drop, slice, length-take_le, length-drop, All, All-take, All-drop,
  arith, Text, IsBytes, text, Result, ok, err, runtime_error,
}
use encrypted_backup_client.Protocol.Bytes.{
  ByteOrder, little, big, Host, IsNetworkOrder, object_value, from_be,
}
use encrypted_backup_client.Protocol.Fields.{c_string-eq-none}
use encrypted_backup_client.Protocol.Response.{
  Response, ResponseHeader, validate_available_bytes, read_binary_field, copy_bytes, copy_aes_key,
  deserialize_payload, deserialize, get_file_name,
}

-- The fields of a response whose payload has the given size; the key fills what the fixed fields
-- of 279 bytes leave.
unfoldable pub read_response : ℕ → Text → Response
read_response size d = record {
  header = record {
    version = from_be (slice 0 1 d);
    response_code = from_be (slice 1 2 d);
    payload_size = size;
  };
  payload = record {
    user_id = slice 7 16 d;
    encrypted_aes_key = slice 23 (size - 279) d;
    encrypted_file_size = from_be (slice (23 + (size - 279)) 4 d);
    file_name = slice (27 + (size - 279)) 255 d;
    checksum = from_be (slice (282 + (size - 279)) 4 d);
  };
}

-- The three ways in which a response is refused, in this order, and the response otherwise.
unfoldable pub parse_response : Text → Result Response
parse_response d =
    let size = from_be (slice 3 4 d) in
    if ltb (length d) 7
    then err (runtime_error (text "Malformed response: insufficient data"))
    else if ltb size 279
    then err (runtime_error (text "Malformed response: invalid payload size"))
    else if ltb (length d) (7 + size)
    then err (runtime_error (text "Malformed response: payload is incomplete"))
    else ok (read_response size d)

-- A read of n bytes that ends at `next`, within the buffer.
module _ (d : Text) (offset n next : ℕ) (ends : offset + n ≡ next) (fits : next ≤ length d) where
  validate_fits : validate_available_bytes d offset n ≡ ok tt
  unfolding validate_available_bytes
  validate_fits = ground arith

  copy_fits : copy_bytes d offset n ≡ ok (slice offset n d, next)
  unfolding copy_bytes
  copy_fits = rw (validate_fits, ends)

  read_fits :
      (o : ByteOrder)
      → read_binary_field o n d offset ≡ ok (object_value o (slice offset n d), next)
  unfolding read_binary_field
  read_fits o = rw (validate_fits, ends)

  copy_aes_key_fits : copy_aes_key d offset n ≡ ok (slice offset n d, next)
  unfolding copy_aes_key
  copy_aes_key_fits = elim (Bool-cases (ltb 0 n)) [
    | inl some_bytes ↦ rw (some_bytes, copy_fits)
    | inr no_bytes ↦
        let none_left : n ≡ 0 = ground arith in
        let stays : offset ≡ next = omega arith in rw (none_left, stays)
  ]

  pub length-slice : length (slice offset n d) ≡ n
  length-slice = length-take_le n (drop offset d) (omega (arith, length-drop offset d))

object_value_single : (o : ByteOrder) (bs : Text) → length bs ≡ 1 → object_value o bs ≡ from_be bs
unfolding object_value
object_value_single o [] l = absurd (omega arith)
object_value_single little (b ∷ []) l = omega arith
object_value_single big (b ∷ []) l = refl
object_value_single o (b ∷ c ∷ bs) l = absurd (omega arith)

pub IsBytes-slice : (offset n : ℕ) (d : Text) → IsBytes d → IsBytes (slice offset n d)
IsBytes-slice offset n d h = All-take _ n (drop offset d) (All-drop _ offset d h)

module _ (h : Host) (law : IsNetworkOrder h) (d : Text) (bytes : IsBytes d) where
  pub ntohl_slice :
      (offset : ℕ)
      → offset + 4 ≤ length d
      → h.ntohl (object_value h.order (slice offset 4 d)) ≡ from_be (slice offset 4 d)
  ntohl_slice offset fits =
      law.ntohl-object_value _ (IsBytes-slice offset 4 d bytes)
        (length-slice d offset 4 _ refl fits)

  ntohs_slice :
      (offset : ℕ)
      → offset + 2 ≤ length d
      → h.ntohs (object_value h.order (slice offset 2 d)) ≡ from_be (slice offset 2 d)
  ntohs_slice offset fits =
      law.ntohs-object_value _ (IsBytes-slice offset 2 d bytes)
        (length-slice d offset 2 _ refl fits)

  deserialize_payload_fits :
      (header : ResponseHeader)
      → 279 ≤ header.payload_size
      → 7 + header.payload_size ≤ length d
      → deserialize_payload h d 7 header
        ≡ ok (record { header = header; payload = (read_response header.payload_size d).payload })
  unfolding deserialize_payload read_response
  deserialize_payload_fits header large fits =
      let k = header.payload_size - 279 in
      rw (
        copy_fits d 7 16 23 (omega arith) (omega arith),
        copy_aes_key_fits d 23 k (23 + k) refl (omega arith),
        read_fits d (23 + k) 4 (27 + k) (omega arith) (omega arith) h.order,
        copy_fits d (27 + k) 255 (282 + k) (omega arith) (omega arith),
        read_fits d (282 + k) 4 (286 + k) (omega arith) (omega arith) h.order,
        ntohl_slice (23 + k) (omega arith),
        ntohl_slice (282 + k) (omega arith),
      )

validate_short :
    (d : Text) (n : ℕ)
    → length d < n
    → validate_available_bytes d 0 n
      ≡ err (runtime_error (text "Malformed response: insufficient data"))
unfolding validate_available_bytes
validate_short d n h = ground arith

-- What stands behind the two size tests may assume that both passed.
behind_tests :
    (size n : ℕ) (e f : Result Response) {a b : Result Response}
    → (279 ≤ size → 7 + size ≤ n → a ≡ b)
    → (if ltb size 279 then e else if ltb n (7 + size) then f else a)
      ≡ (if ltb size 279 then e else if ltb n (7 + size) then f else b)
behind_tests size n e f h = elim (Bool-cases (ltb size 279)) [
  | inl small ↦ rw small
  | inr large ↦ elim (Bool-cases (ltb n (7 + size))) [
    | inl short ↦ rw (large, short)
    | inr fits ↦ rw (large, fits) (h (ground arith) (ground arith))
  ]
]

-- On every host, `deserialize` refuses and accepts exactly what the format says, with the same
-- message and the same fields, whatever the bytes are.
pub deserialize-eq-parse_response :
    (h : Host) (d : Text) → IsNetworkOrder h → IsBytes d → deserialize h d ≡ parse_response d
unfolding deserialize parse_response read_response
deserialize-eq-parse_response h d law bytes = elim (Bool-cases (ltb (length d) 7)) [
  | inl short ↦ rw (validate_short d 7 (ltb→lt _ _ short), short)
  | inr long ↦
      let seven : 7 ≤ length d = ground arith in
      rw
        (
          validate_fits d 0 7 7 refl seven,
          read_fits d 0 1 1 refl (omega arith) h.order,
          read_fits d 1 2 3 refl (omega arith) h.order,
          read_fits d 3 4 7 refl (omega arith) h.order,
          ntohl_slice h law d bytes 3 (omega arith),
          ntohs_slice h law d bytes 1 (omega arith),
          object_value_single h.order (slice 0 1 d) (length-slice d 0 1 1 refl (omega arith)),
          long,
        )
        (behind_tests (from_be (slice 3 4 d)) (length d) _ _
          (λ large fits. deserialize_payload_fits h law d bytes _ large fits))
]

-- The file name of an accepted response need not be terminated: where its 255 bytes hold no NUL,
-- the getter reads past the array.
pub get_file_name-deserialize_unterminated :
    (h : Host) (d : Text) (r : Response)
    → IsNetworkOrder h
    → IsBytes d
    → All (λ b. b ≢ 0) (slice (27 + (from_be (slice 3 4 d) - 279)) 255 d)
    → deserialize h d ≡ ok r
    → get_file_name r.payload ≡ none
unfolding parse_response get_file_name read_response
get_file_name-deserialize_unterminated h d r law bytes full e =
    let parsed : parse_response d ≡ ok r = sym (deserialize-eq-parse_response h d law bytes) ∙ e in
    let accepted : read_response (from_be (slice 3 4 d)) d ≡ r = ground arith in
    rw (← accepted) (c_string-eq-none _ full)
