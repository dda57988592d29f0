-- ===== src/Protocol/Request/Layout.antt =====
-- The layout of a serialized request (Request::serialize of src/protocol/request.cpp): an
-- independent reader by offsets, and the sizes.
use encrypted_backup_client.Base.{
  ◌+◌, ◌^◌, ◌<◌, ◌≡◌, refl, ap, ◌∙◌, ◌++◌, length, length-append, drop, slice, drop_next,
  slice_here, arith, Text,
}
use encrypted_backup_client.Protocol.Types.{unique_id_len, rsa_key_len, username_len, file_name_len}
use encrypted_backup_client.Protocol.Bytes.{
  ByteOrder, object_bytes, object_value, length-object_bytes, object_value-object_bytes_one,
  object_value-object_bytes_two, object_value-object_bytes_four,
}
use encrypted_backup_client.Protocol.Request.{Request, RequestHeader, RequestPayload, serialize}

-- The array sizes and the ranges of the field types.
pub record IsHeader (h : RequestHeader) : Type 0 where
  pub user_id_size : length h.user_id ≡ unique_id_len
  pub version_range : h.version < 2 ^ 8
  pub request_code_range : h.request_code < 2 ^ 16
  pub payload_size_range : h.payload_size < 2 ^ 32

pub record IsPayload (p : RequestPayload) : Type 0 where
  pub username_size : length p.username ≡ username_len
  pub public_key_size : length p.public_key ≡ rsa_key_len
  pub encrypted_chunk_size_range : p.encrypted_chunk_size < 2 ^ 32
  pub file_size_range : p.file_size < 2 ^ 32
  pub packet_number_range : p.packet_number < 2 ^ 16
  pub total_packets_range : p.total_packets < 2 ^ 16
  pub file_name_size : length p.file_name ≡ file_name_len

-- The reader of the other side: every field at its offset, the chunk behind them.
unfoldable pub read_request : ByteOrder → Text → Request
read_request o d = record {
  header = record {
    user_id = slice 0 16 d;
    version = object_value o (slice 16 1 d);
    request_code = object_value o (slice 17 2 d);
    payload_size = object_value o (slice 19 4 d);
  };
  payload = record {
    username = slice 23 64 d;
    public_key = slice 87 160 d;
    encrypted_chunk_size = object_value o (slice 247 4 d);
    file_size = object_value o (slice 251 4 d);
    packet_number = object_value o (slice 255 2 d);
    total_packets = object_value o (slice 257 2 d);
    file_name = slice 259 255 d;
    encrypted_chunk_data = drop 514 d;
  };
}

-- A serialized request has 23 header bytes, 491 fixed payload bytes and the chunk, when the arrays
-- have their sizes.
pub length-serialize :
    (o : ByteOrder) (r : Request)
    → IsHeader r.header
    → IsPayload r.payload
    → length (serialize o r) ≡ 23 + 491 + length r.payload.encrypted_chunk_data
unfolding serialize
length-serialize o r h p = simp (length-append, length-object_bytes) (omega arith)

-- The fields behind the fixed part of the header.
module _ (o : ByteOrder) (h : RequestHeader) (v : IsHeader h) (rest : Text) where
  abbrev pub header_bytes : Text
  header_bytes =
      h.user_id
      ++ (object_bytes o 1 h.version
          ++ (object_bytes o 2 h.request_code ++ (object_bytes o 4 h.payload_size ++ rest)))

  at_version :
      drop 16 header_bytes
      ≡ object_bytes o 1 h.version
        ++ (object_bytes o 2 h.request_code ++ (object_bytes o 4 h.payload_size ++ rest))
  at_version = drop_next header_bytes 0 16 h.user_id _ refl v.user_id_size

  at_code :
      drop 17 header_bytes
      ≡ object_bytes o 2 h.request_code ++ (object_bytes o 4 h.payload_size ++ rest)
  at_code = drop_next header_bytes 16 1 _ _ at_version (length-object_bytes o 1 _)

  at_size : drop 19 header_bytes ≡ object_bytes o 4 h.payload_size ++ rest
  at_size = drop_next header_bytes 17 2 _ _ at_code (length-object_bytes o 2 _)

  at_payload : drop 23 header_bytes ≡ rest
  at_payload = drop_next header_bytes 19 4 _ _ at_size (length-object_bytes o 4 _)

  pub read_header :
      (slice 0 16 header_bytes ≡ h.user_id)
      × (object_value o (slice 16 1 header_bytes) ≡ h.version)
      × (object_value o (slice 17 2 header_bytes) ≡ h.request_code)
      × (object_value o (slice 19 4 header_bytes) ≡ h.payload_size)
  read_header = (
    slice_here header_bytes 0 16 h.user_id _ refl v.user_id_size,
    ap (object_value o) (slice_here header_bytes 16 1 _ _ at_version (length-object_bytes o 1 _))
        ∙ object_value-object_bytes_one o h.version v.version_range,
    ap (object_value o) (slice_here header_bytes 17 2 _ _ at_code (length-object_bytes o 2 _))
        ∙ object_value-object_bytes_two o h.request_code v.request_code_range,
    ap (object_value o) (slice_here header_bytes 19 4 _ _ at_size (length-object_bytes o 4 _))
        ∙ object_value-object_bytes_four o h.payload_size v.payload_size_range,
  )

-- The payload from byte 23 on, as a chain of suffixes.
module _ (o : ByteOrder) (p : RequestPayload) where
  abbrev from_name : Text
  from_name = p.file_name ++ p.encrypted_chunk_data

  abbrev from_total : Text
  from_total = object_bytes o 2 p.total_packets ++ from_name

  abbrev from_packet : Text
  from_packet = object_bytes o 2 p.packet_number ++ from_total

  abbrev from_size : Text
  from_size = object_bytes o 4 p.file_size ++ from_packet

  abbrev from_chunk_size : Text
  from_chunk_size = object_bytes o 4 p.encrypted_chunk_size ++ from_size

  abbrev from_key : Text
  from_key = p.public_key ++ from_chunk_size

  abbrev pub payload_bytes : Text
  payload_bytes = p.username ++ from_key

module _ (o : ByteOrder) (p : RequestPayload) (v : IsPayload p) (d : Text)
    (at_name : drop 23 d ≡ payload_bytes o p) where
  at_key : drop 87 d ≡ from_key o p
  at_key = drop_next d 23 64 _ _ at_name v.username_size

  at_chunk_size : drop 247 d ≡ from_chunk_size o p
  at_chunk_size = drop_next d 87 160 _ _ at_key v.public_key_size

  at_file_size : drop 251 d ≡ from_size o p
  at_file_size = drop_next d 247 4 _ _ at_chunk_size (length-object_bytes o 4 _)

  at_packet : drop 255 d ≡ from_packet o p
  at_packet = drop_next d 251 4 _ _ at_file_size (length-object_bytes o 4 _)

  at_total : drop 257 d ≡ from_total o p
  at_total = drop_next d 255 2 _ _ at_packet (length-object_bytes o 2 _)

  at_file_name : drop 259 d ≡ from_name o p
  at_file_name = drop_next d 257 2 _ _ at_total (length-object_bytes o 2 _)

  at_chunk : drop 514 d ≡ p.encrypted_chunk_data
  at_chunk = drop_next d 259 255 _ _ at_file_name v.file_name_size

  read_text_fields :
      (slice 23 64 d ≡ p.username)
      × (slice 87 160 d ≡ p.public_key)
      × (slice 259 255 d ≡ p.file_name)
  read_text_fields = (
    slice_here d 23 64 _ _ at_name v.username_size,
    slice_here d 87 160 _ _ at_key v.public_key_size,
    slice_here d 259 255 _ _ at_file_name v.file_name_size,
  )

  read_number_fields :
      (object_value o (slice 247 4 d) ≡ p.encrypted_chunk_size)
      × (object_value o (slice 251 4 d) ≡ p.file_size)
      × (object_value o (slice 255 2 d) ≡ p.packet_number)
      × (object_value o (slice 257 2 d) ≡ p.total_packets)
  read_number_fields = (
    ap (object_value o) (slice_here d 247 4 _ _ at_chunk_size (length-object_bytes o 4 _))
        ∙ object_value-object_bytes_four o _ v.encrypted_chunk_size_range,
    ap (object_value o) (slice_here d 251 4 _ _ at_file_size (length-object_bytes o 4 _))
        ∙ object_value-object_bytes_four o _ v.file_size_range,
    ap (object_value o) (slice_here d 255 2 _ _ at_packet (length-object_bytes o 2 _))
        ∙ object_value-object_bytes_two o _ v.packet_number_range,
    ap (object_value o) (slice_here d 257 2 _ _ at_total (length-object_bytes o 2 _))
        ∙ object_value-object_bytes_two o _ v.total_packets_range,
  )

-- The serialized request read at the protocol's offsets gives back every field, for both byte
-- orders, when the arrays have their sizes and the numbers fit their fields.
pub read_request-serialize :
    (o : ByteOrder) (r : Request)
    → IsHeader r.header
    → IsPayload r.payload
    → read_request o (serialize o r) ≡ r
unfolding read_request serialize
read_request-serialize o r h p =
    let start = at_payload o r.header h (payload_bytes o r.payload) in
    let head = read_header o r.header h (payload_bytes o r.payload) in
    let texts = read_text_fields o r.payload p (serialize o r) start in
    let numbers = read_number_fields o r.payload p (serialize o r) start in
    let chunk = at_chunk o r.payload p (serialize o r) start in
    cc (
      head.0, head.1, head.2, head.3, texts.0, texts.1, texts.2, numbers.0, numbers.1, numbers.2,
      numbers.3, chunk,
    )
