-- ===== src/Protocol/Request/Initial.antt =====
-- The requests that the constructors and the setters of src/protocol/request.cpp build have arrays of
-- their sizes and numbers in their ranges.
use mathlib.Core.Path.{subst}
use encrypted_backup_client.Base.{
  ℕ, ◌<◌, ◌^◌, ◌≡◌, length-replicate, arith, Text, ok, >>=-eq-ok, ok-injective,
}
use encrypted_backup_client.Utils.Encoding.{hex_string_to_byte_array}
use encrypted_backup_client.Utils.Encoding.Laws.{hex_string_to_byte_array_valid}
use encrypted_backup_client.Protocol.Fields.{length-fill_field}
use encrypted_backup_client.Protocol.Request.{
  RequestHeader, init_header, init_payload, set_request_code, set_payload_size, set_file_name,
  set_user_id, set_total_packets, set_file_size,
}
use encrypted_backup_client.Protocol.Request.Layout.{IsHeader, IsPayload}

pub init_payload-IsPayload : IsPayload init_payload
unfolding init_payload
init_payload-IsPayload = record {
  username_size = length-replicate {A = ℕ} 64 0;
  public_key_size = length-replicate {A = ℕ} 160 0;
  encrypted_chunk_size_range = omega arith;
  file_size_range = omega arith;
  packet_number_range = omega arith;
  total_packets_range = omega arith;
  file_name_size = length-replicate {A = ℕ} 255 0;
}

pub named-IsPayload : (file_name : Text) → IsPayload (set_file_name file_name init_payload)
unfolding set_file_name
named-IsPayload file_name = record {
  username_size = init_payload-IsPayload.username_size;
  public_key_size = init_payload-IsPayload.public_key_size;
  encrypted_chunk_size_range = init_payload-IsPayload.encrypted_chunk_size_range;
  file_size_range = init_payload-IsPayload.file_size_range;
  packet_number_range = init_payload-IsPayload.packet_number_range;
  total_packets_range = init_payload-IsPayload.total_packets_range;
  file_name_size = length-fill_field 255 file_name;
}

-- A header with a code and a size that fit.
pub coded-IsHeader :
    (h : RequestHeader) (code size : ℕ)
    → IsHeader h
    → code < 2 ^ 16
    → size < 2 ^ 32
    → IsHeader (set_payload_size size (set_request_code code h))
unfolding set_payload_size set_request_code
coded-IsHeader h code size v c s = record {
  user_id_size = v.user_id_size;
  version_range = v.version_range;
  request_code_range = c;
  payload_size_range = s;
}

pub init_header-IsHeader : IsHeader init_header
unfolding init_header
init_header-IsHeader = record {
  user_id_size = length-replicate {A = ℕ} 16 0;
  version_range = omega arith;
  request_code_range = omega arith;
  payload_size_range = omega arith;
}

-- A header with the user ID of a hexadecimal text.
pub set_user_id-IsHeader :
    (user_id : Text) (h k : RequestHeader) → IsHeader h → set_user_id user_id h ≡ ok k → IsHeader k
unfolding set_user_id
set_user_id-IsHeader user_id h k v e =
    let (bytes, parsed, done) = >>=-eq-ok (hex_string_to_byte_array 16 user_id) _ e in
    let (_, _, size) = hex_string_to_byte_array_valid 16 user_id bytes parsed in
    subst IsHeader (ok-injective done) (record {
      user_id_size = size;
      version_range = v.version_range;
      request_code_range = v.request_code_range;
      payload_size_range = v.payload_size_range;
    })

pub set_request_code-IsHeader :
    (code : ℕ) (h : RequestHeader) → IsHeader h → code < 2 ^ 16 → IsHeader (set_request_code code h)
unfolding set_request_code
set_request_code-IsHeader code h v c = record {
  user_id_size = v.user_id_size;
  version_range = v.version_range;
  request_code_range = c;
  payload_size_range = v.payload_size_range;
}

-- The payload of an upload before its first packet.
pub sized-IsPayload :
    (file_name : Text) (file_size total : ℕ)
    → file_size < 2 ^ 32
    → total < 2 ^ 16
    → IsPayload
        (set_total_packets total (set_file_name file_name (set_file_size file_size init_payload)))
unfolding set_total_packets set_file_name set_file_size
sized-IsPayload file_name file_size total s t = record {
  username_size = init_payload-IsPayload.username_size;
  public_key_size = init_payload-IsPayload.public_key_size;
  encrypted_chunk_size_range = init_payload-IsPayload.encrypted_chunk_size_range;
  file_size_range = s;
  packet_number_range = init_payload-IsPayload.packet_number_range;
  total_packets_range = t;
  file_name_size = length-fill_field 255 file_name;
}
