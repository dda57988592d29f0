-- ===== src/Protocol/Response/RoundTrip.antt =====
-- A response as a server writes it, and its way through Response::deserialize.
use encrypted_backup_client.Base.{
  append_assoc, ℕ, ◌+◌, ◌-◌, ◌<◌, ◌^◌, ◌≡◌, refl, ap, ◌∙◌, ◌++◌, [], length, length-append, drop,
  slice, drop_next, slice_here, All-append, arith, Text, IsBytes, ok,
}
use encrypted_backup_client.Protocol.Bytes.{
  Host, IsNetworkOrder, be_bytes, from_be, length-be_bytes, IsBytes-be_bytes, from_be-be_bytes_one,
  from_be-be_bytes_two, from_be-be_bytes_four,
}
use encrypted_backup_client.Protocol.Response.{Response, ResponsePayload, deserialize}
use encrypted_backup_client.Protocol.Response.Reference.{
  read_response, parse_response, deserialize-eq-parse_response,
}

-- A response with the ranges of its fields, whose payload size counts the fields it has.
pub record IsResponse (r : Response) : Type 0 where
  pub version_range : r.header.version < 2 ^ 8
  pub code_range : r.header.response_code < 2 ^ 16
  pub size_range : r.header.payload_size < 2 ^ 32
  pub size_counts : r.header.payload_size ≡ 279 + length r.payload.encrypted_aes_key
  pub user_id_size : length r.payload.user_id ≡ 16
  pub user_id_bytes : IsBytes r.payload.user_id
  pub key_bytes : IsBytes r.payload.encrypted_aes_key
  pub file_size_range : r.payload.encrypted_file_size < 2 ^ 32
  pub file_name_size : length r.payload.file_name ≡ 255
  pub file_name_bytes : IsBytes r.payload.file_name
  pub checksum_range : r.payload.checksum < 2 ^ 32

-- The fields in their order, numbers in network byte order, with what follows on the stream.
module _ (p : ResponsePayload) (rest : Text) where
  abbrev pub from_checksum : Text
  from_checksum = be_bytes 4 p.checksum ++ rest

  abbrev pub from_name : Text
  from_name = p.file_name ++ from_checksum

  abbrev pub from_size : Text
  from_size = be_bytes 4 p.encrypted_file_size ++ from_name

  abbrev pub from_key : Text
  from_key = p.encrypted_aes_key ++ from_size

  abbrev pub from_id : Text
  from_id = p.user_id ++ from_key

unfoldable pub write_response : Response → Text → Text
write_response r rest =
    be_bytes 1 r.header.version
    ++ (be_bytes 2 r.header.response_code
        ++ (be_bytes 4 r.header.payload_size ++ from_id r.payload rest))

pub length-write_response :
    (r : Response) (rest : Text)
    → IsResponse r
    → length (write_response r rest) ≡ 7 + r.header.payload_size + length rest
unfolding write_response
length-write_response r rest v = simp (length-append, length-be_bytes) (omega arith)

pub IsBytes-write_response :
    (r : Response) (rest : Text) → IsResponse r → IsBytes rest → IsBytes (write_response r rest)
unfolding write_response
IsBytes-write_response r rest v more = All-append _ (be_bytes 1 _) _ (IsBytes-be_bytes 1 _) (
    All-append _ (be_bytes 2 _) _ (IsBytes-be_bytes 2 _) (
      All-append _ (be_bytes 4 _) _ (IsBytes-be_bytes 4 _) (
        All-append _ _ _ v.user_id_bytes (
          All-append _ _ _ v.key_bytes (
            All-append _ (be_bytes 4 _) _ (IsBytes-be_bytes 4 _) (
              All-append _ _ _ v.file_name_bytes
                (All-append _ (be_bytes 4 _) _ (IsBytes-be_bytes 4 _) more)))))))

module _ (r : Response) (rest : Text) (v : IsResponse r) where
  abbrev pub wire : Text
  wire = write_response r rest

  at_code :
      drop 1 wire
      ≡ be_bytes 2 r.header.response_code
        ++ (be_bytes 4 r.header.payload_size ++ from_id r.payload rest)
  unfolding write_response
  at_code = drop_next wire 0 1 (be_bytes 1 _) _ refl (length-be_bytes 1 _)

  at_size : drop 3 wire ≡ be_bytes 4 r.header.payload_size ++ from_id r.payload rest
  at_size = drop_next wire 1 2 (be_bytes 2 _) _ at_code (length-be_bytes 2 _)

  at_id : drop 7 wire ≡ from_id r.payload rest
  at_id = drop_next wire 3 4 (be_bytes 4 _) _ at_size (length-be_bytes 4 _)

  at_key : drop 23 wire ≡ from_key r.payload rest
  at_key = drop_next wire 7 16 r.payload.user_id _ at_id v.user_id_size

  pub read_header_fields :
      (from_be (slice 0 1 wire) ≡ r.header.version)
      × (from_be (slice 1 2 wire) ≡ r.header.response_code)
      × (from_be (slice 3 4 wire) ≡ r.header.payload_size)
  unfolding write_response
  read_header_fields = (
    ap from_be (slice_here wire 0 1 (be_bytes 1 _) _ refl (length-be_bytes 1 _))
        ∙ from_be-be_bytes_one _ v.version_range,
    ap from_be (slice_here wire 1 2 (be_bytes 2 _) _ at_code (length-be_bytes 2 _))
        ∙ from_be-be_bytes_two _ v.code_range,
    ap from_be (slice_here wire 3 4 (be_bytes 4 _) _ at_size (length-be_bytes 4 _))
        ∙ from_be-be_bytes_four _ v.size_range,
  )

  module _ (k : ℕ) (key_size : length r.payload.encrypted_aes_key ≡ k) where
    at_file_size : drop (23 + k) wire ≡ from_size r.payload rest
    at_file_size = drop_next wire 23 k _ _ at_key key_size

    at_name : drop (27 + k) wire ≡ from_name r.payload rest
    at_name =
        ap (λ n. drop n wire) (let e : 27 + k ≡ 23 + k + 4 = omega arith in e)
        ∙ drop_next wire (23 + k) 4 (be_bytes 4 _) _ at_file_size (length-be_bytes 4 _)

    at_checksum : drop (282 + k) wire ≡ from_checksum r.payload rest
    at_checksum =
        ap (λ n. drop n wire) (let e : 282 + k ≡ 27 + k + 255 = omega arith in e)
        ∙ drop_next wire (27 + k) 255 _ _ at_name v.file_name_size

    read_payload_fields :
        (slice 7 16 wire ≡ r.payload.user_id)
        × (slice 23 k wire ≡ r.payload.encrypted_aes_key)
        × (from_be (slice (23 + k) 4 wire) ≡ r.payload.encrypted_file_size)
        × (slice (27 + k) 255 wire ≡ r.payload.file_name)
        × (from_be (slice (282 + k) 4 wire) ≡ r.payload.checksum)
    read_payload_fields = (
      slice_here wire 7 16 _ _ at_id v.user_id_size,
      slice_here wire 23 k _ _ at_key key_size,
      ap from_be (slice_here wire (23 + k) 4 (be_bytes 4 _) _ at_file_size (length-be_bytes 4 _))
          ∙ from_be-be_bytes_four _ v.file_size_range,
      slice_here wire (27 + k) 255 _ _ at_name v.file_name_size,
      ap from_be (slice_here wire (282 + k) 4 (be_bytes 4 _) _ at_checksum (length-be_bytes 4 _))
          ∙ from_be-be_bytes_four _ v.checksum_range,
    )

  read_response-write_response : read_response r.header.payload_size wire ≡ r
  unfolding read_response
  read_response-write_response =
      let head = read_header_fields in
      let body = read_payload_fields (r.header.payload_size - 279) (omega arith) in
      cc (head.0, head.1, body.0, body.1, body.2, body.3, body.4)

pub write_response-append :
    (r : Response) (rest : Text) → write_response r rest ≡ write_response r [] ++ rest
unfolding write_response
write_response-append r rest = simp (append_assoc)

-- On every host a response in network byte order, whose fields have their sizes and ranges, is
-- read back field by field, whatever follows it in the buffer.
pub deserialize-write_response :
    (h : Host) (r : Response) (rest : Text)
    → IsNetworkOrder h
    → IsResponse r
    → IsBytes rest
    → deserialize h (write_response r rest) ≡ ok r
unfolding parse_response
deserialize-write_response h r rest law v more =
    let size = length-write_response r rest v in
    let head = read_header_fields r rest v in
    rw (deserialize-eq-parse_response h _ law (IsBytes-write_response r rest v more), head.2, size)
      (ground (arith, read_response-write_response r rest v))
