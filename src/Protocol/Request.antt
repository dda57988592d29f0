-- ===== src/Protocol/Request.antt =====
-- The request model: include/protocol/request.h and src/protocol/request.cpp.
pub mod Layout
pub mod Initial
use encrypted_backup_client.Base.{
  ℕ, Option, none, some, [], ◌++◌, if◌then◌else◌, ltb, length, take, replicate, Text, text, Result,
  ok, err, invalid_argument, undefined_read, ◌>>=◌,
}
use encrypted_backup_client.Utils.Encoding.{bytes_to_hex, hex_string_to_byte_array}
use encrypted_backup_client.Protocol.Types.{unique_id_len, rsa_key_len, username_len, file_name_len}
use encrypted_backup_client.Protocol.Sizeof
use encrypted_backup_client.Protocol.Bytes.{ByteOrder, object_bytes}
use encrypted_backup_client.Protocol.Fields.{fill_field, c_string}

pub record RequestHeader : Type 0 where
  pub user_id : Text
  pub version : ℕ
  pub request_code : ℕ
  pub payload_size : ℕ

pub record RequestPayload : Type 0 where
  pub username : Text
  pub public_key : Text
  pub encrypted_chunk_size : ℕ
  pub file_size : ℕ
  pub packet_number : ℕ
  pub total_packets : ℕ
  pub file_name : Text
  pub encrypted_chunk_data : Text

pub record Request : Type 0 where
  pub header : RequestHeader
  pub payload : RequestPayload

abbrev pub client_version : ℕ
client_version = 3

-- The constructors.
unfoldable pub init_header : RequestHeader
init_header = record {
  user_id = replicate unique_id_len 0;
  version = client_version;
  request_code = 0;
  payload_size = 0;
}

unfoldable pub init_payload : RequestPayload
init_payload = record {
  username = replicate username_len 0;
  public_key = replicate rsa_key_len 0;
  encrypted_chunk_size = 0;
  file_size = 0;
  packet_number = 0;
  total_packets = 0;
  file_name = replicate file_name_len 0;
  encrypted_chunk_data = [];
}

unfoldable pub init_request : Request
init_request = record { header = init_header; payload = init_payload }

-- The accessors of the header.
unfoldable pub get_user_id : RequestHeader → Result Text
get_user_id h = bytes_to_hex (some h.user_id) unique_id_len

unfoldable pub set_user_id : Text → RequestHeader → Result RequestHeader
set_user_id hex_string h = do
  user_id ← hex_string_to_byte_array unique_id_len hex_string
  ok (record h { user_id = user_id })

abbrev pub get_version : RequestHeader → ℕ
get_version h = h.version

unfoldable pub set_version : ℕ → RequestHeader → RequestHeader
set_version version h = record h { version = version }

abbrev pub get_request_code : RequestHeader → ℕ
get_request_code h = h.request_code

unfoldable pub set_request_code : ℕ → RequestHeader → RequestHeader
set_request_code request_code h = record h { request_code = request_code }

abbrev pub get_payload_size : RequestHeader → ℕ
get_payload_size h = h.payload_size

unfoldable pub set_payload_size : ℕ → RequestHeader → RequestHeader
set_payload_size payload_size h = record h { payload_size = payload_size }

-- The accessors of the payload. `none` of a text getter: the array has no NUL.
unfoldable pub get_username : RequestPayload → Option Text
get_username p = c_string p.username

unfoldable pub set_username : Text → RequestPayload → RequestPayload
set_username username p = record p { username = fill_field username_len username }

-- `Base64Wrapper::encode(data, size)` of Crypto++ is the argument.
unfoldable pub get_public_key : (Text → Text) → RequestPayload → Text
get_public_key base64_encode p = base64_encode p.public_key

-- `none` is the null pointer. A buffer of fewer than `RSA_KEY_LEN` bytes is read past its end.
unfoldable pub set_public_key : Option Text → RequestPayload → Result RequestPayload
set_public_key none p = err (invalid_argument (text "Public key buffer cannot be null"))
set_public_key (some buffer) p =
    if ltb (length buffer) rsa_key_len
    then err undefined_read
    else ok (record p { public_key = take rsa_key_len buffer })

abbrev pub get_encrypted_file_size : RequestPayload → ℕ
get_encrypted_file_size p = p.encrypted_chunk_size

unfoldable pub set_encrypted_chunk_size : ℕ → RequestPayload → RequestPayload
set_encrypted_chunk_size size p = record p { encrypted_chunk_size = size }

abbrev pub get_file_size : RequestPayload → ℕ
get_file_size p = p.file_size

unfoldable pub set_file_size : ℕ → RequestPayload → RequestPayload
set_file_size size p = record p { file_size = size }

abbrev pub get_packet_number : RequestPayload → ℕ
get_packet_number p = p.packet_number

unfoldable pub set_packet_number : ℕ → RequestPayload → RequestPayload
set_packet_number packet_number p = record p { packet_number = packet_number }

abbrev pub get_total_packets : RequestPayload → ℕ
get_total_packets p = p.total_packets

unfoldable pub set_total_packets : ℕ → RequestPayload → RequestPayload
set_total_packets total_packets p = record p { total_packets = total_packets }

unfoldable pub get_file_name : RequestPayload → Option Text
get_file_name p = c_string p.file_name

unfoldable pub set_file_name : Text → RequestPayload → RequestPayload
set_file_name file_name p = record p { file_name = fill_field file_name_len file_name }

abbrev pub get_encrypted_file_data : RequestPayload → Text
get_encrypted_file_data p = p.encrypted_chunk_data

unfoldable pub set_encrypted_chunk_data : Text → RequestPayload → RequestPayload
set_encrypted_chunk_data chunk p = record p { encrypted_chunk_data = chunk }

-- The accessors of the request, and its constructor from a header and a payload.
abbrev make_request : RequestHeader → RequestPayload → Request
make_request header payload = record { header = header; payload = payload }

abbrev pub get_header : Request → RequestHeader
get_header r = r.header

abbrev set_header : RequestHeader → Request → Request
set_header header r = record r { header = header }

abbrev pub get_payload : Request → RequestPayload
get_payload r = r.payload

abbrev set_payload : RequestPayload → Request → Request
set_payload payload r = record r { payload = payload }

-- `Request::serialize` on a host with the given byte order.
unfoldable pub serialize : ByteOrder → Request → Text
serialize o r =
    header.user_id
    ++ (object_bytes o Sizeof.version header.version
        ++ (object_bytes o Sizeof.code header.request_code
            ++ (object_bytes o Sizeof.payload_size header.payload_size
                ++ (payload.username
                    ++ (payload.public_key
                        ++ (object_bytes o Sizeof.enc_chunk_size payload.encrypted_chunk_size
                            ++ (object_bytes o Sizeof.file_size payload.file_size
                                ++ (object_bytes o Sizeof.packet_num payload.packet_number
                                    ++ (object_bytes o Sizeof.total_packets payload.total_packets
                                        ++ (payload.file_name
                                            ++ payload.encrypted_chunk_data))))))))))
  where
    open r use {header, payload}
