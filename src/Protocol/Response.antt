-- ===== src/Protocol/Response.antt =====
-- The response model: include/protocol/response.h and src/protocol/response.cpp.
pub mod Reference
pub mod RoundTrip
pub mod Accepted
use encrypted_backup_client.Base.{
  ℕ, ◌+◌, ◌-◌, Option, none, some, [], ◌++◌, Bool, true, false, ◌||◌, if◌then◌else◌, ltb, length,
  take, drop, replicate, Text, text, Result, ok, err, runtime_error, ◌>>=◌, ◌>>◌,
}
use encrypted_backup_client.Utils.Encoding.{bytes_to_hex, hex_string_to_byte_array}
use encrypted_backup_client.Protocol.Types.{unique_id_len, file_name_len}
use encrypted_backup_client.Protocol.Sizeof
use encrypted_backup_client.Protocol.Bytes.{ByteOrder, Host, object_value}
use encrypted_backup_client.Protocol.Fields.{fill_field, c_string}

pub record ResponseHeader : Type 0 where
  pub version : ℕ
  pub response_code : ℕ
  pub payload_size : ℕ

pub record ResponsePayload : Type 0 where
  pub user_id : Text
  pub encrypted_aes_key : Text
  pub encrypted_file_size : ℕ
  pub file_name : Text
  pub checksum : ℕ

pub record Response : Type 0 where
  pub header : ResponseHeader
  pub payload : ResponsePayload

-- The constructors.
unfoldable pub init_header : ResponseHeader
init_header = record { version = 0; response_code = 0; payload_size = 0 }

unfoldable pub init_payload : ResponsePayload
init_payload = record {
  user_id = replicate unique_id_len 0;
  encrypted_aes_key = [];
  encrypted_file_size = 0;
  file_name = replicate file_name_len 0;
  checksum = 0;
}

-- The accessors of the header.
abbrev pub get_version : ResponseHeader → ℕ
get_version h = h.version

unfoldable pub set_version : ℕ → ResponseHeader → ResponseHeader
set_version version h = record h { version = version }

abbrev pub get_response_code : ResponseHeader → ℕ
get_response_code h = h.response_code

unfoldable pub set_response_code : ℕ → ResponseHeader → ResponseHeader
set_response_code response_code h = record h { response_code = response_code }

abbrev pub get_payload_size : ResponseHeader → ℕ
get_payload_size h = h.payload_size

unfoldable pub set_payload_size : ℕ → ResponseHeader → ResponseHeader
set_payload_size payload_size h = record h { payload_size = payload_size }

-- The accessors of the payload. `none` of the text getter: the array has no NUL.
unfoldable pub get_user_id : ResponsePayload → Result Text
get_user_id p = bytes_to_hex (some p.user_id) unique_id_len

unfoldable pub set_user_id : Text → ResponsePayload → Result ResponsePayload
set_user_id hex_string p = do
  user_id ← hex_string_to_byte_array unique_id_len hex_string
  ok (record p { user_id = user_id })

abbrev pub get_encrypted_aes_key : ResponsePayload → Text
get_encrypted_aes_key p = p.encrypted_aes_key

unfoldable pub set_encrypted_aes_key : Text → ResponsePayload → ResponsePayload
set_encrypted_aes_key key p = record p { encrypted_aes_key = key }

abbrev pub get_encrypted_file_size : ResponsePayload → ℕ
get_encrypted_file_size p = p.encrypted_file_size

unfoldable pub set_encrypted_file_size : ℕ → ResponsePayload → ResponsePayload
set_encrypted_file_size size p = record p { encrypted_file_size = size }

unfoldable pub get_file_name : ResponsePayload → Option Text
get_file_name p = c_string p.file_name

unfoldable pub set_file_name : Text → ResponsePayload → ResponsePayload
set_file_name file_name p = record p { file_name = fill_field file_name_len file_name }

abbrev pub get_checksum : ResponsePayload → ℕ
get_checksum p = p.checksum

unfoldable pub set_checksum : ℕ → ResponsePayload → ResponsePayload
set_checksum checksum p = record p { checksum = checksum }

-- The accessors of the response, and its constructors.
abbrev init_response : Response
init_response = record { header = init_header; payload = init_payload }

abbrev make_response : ResponseHeader → ResponsePayload → Response
make_response header payload = record { header = header; payload = payload }

abbrev pub get_header : Response → ResponseHeader
get_header r = r.header

abbrev set_header : ResponseHeader → Response → Response
set_header header r = record r { header = header }

abbrev pub get_payload : Response → ResponsePayload
get_payload r = r.payload

abbrev set_payload : ResponsePayload → Response → Response
set_payload payload r = record r { payload = payload }

abbrev pub response_header_size : ℕ
response_header_size = Sizeof.version + Sizeof.code + Sizeof.payload_size

abbrev pub fixed_response_payload_size : ℕ
fixed_response_payload_size =
    unique_id_len + Sizeof.enc_chunk_size + file_name_len + Sizeof.checksum

-- `size_t` arithmetic: the subtraction is reached only behind the first test.
unfoldable pub validate_available_bytes : Text → ℕ → ℕ → Result (Unit {0})
validate_available_bytes d offset bytes_to_read =
    if ltb (length d) offset || ltb (length d - offset) bytes_to_read
    then err (runtime_error (text "Malformed response: insufficient data"))
    else ok tt

-- A field of w bytes and the offset behind it.
unfoldable pub read_binary_field : ByteOrder → ℕ → Text → ℕ → Result (ℕ × ℕ)
read_binary_field o w d offset = do
  validate_available_bytes d offset w
  ok (object_value o (take w (drop offset d)), offset + w)

unfoldable pub copy_bytes : Text → ℕ → ℕ → Result (Text × ℕ)
copy_bytes d offset size = do
  validate_available_bytes d offset size
  ok (take size (drop offset d), offset + size)

-- The encrypted AES key is copied only if it has a size.
unfoldable pub copy_aes_key : Text → ℕ → ℕ → Result (Text × ℕ)
copy_aes_key d offset aes_key_size =
    let copied = copy_bytes d offset aes_key_size in
    if ltb 0 aes_key_size then copied else ok ([], offset)

-- The payload behind the header, for a header that passed its tests.
unfoldable pub deserialize_payload : Host → Text → ℕ → ResponseHeader → Result Response
deserialize_payload h d offset header = do
  (user_id, offset_key) ← copy_bytes d offset unique_id_len
  let aes_key_size = header.payload_size - fixed_response_payload_size
  (encrypted_aes_key, offset_size) ← copy_aes_key d offset_key aes_key_size
  (net_size, offset_name) ← read_binary_field h.order Sizeof.enc_chunk_size d offset_size
  (file_name, offset_checksum) ← copy_bytes d offset_name file_name_len
  (net_checksum, offset_end) ← read_binary_field h.order Sizeof.checksum d offset_checksum
  ok (record {
    header = header;
    payload = record {
      user_id = user_id;
      encrypted_aes_key = encrypted_aes_key;
      encrypted_file_size = h.ntohl net_size;
      file_name = file_name;
      checksum = h.ntohl net_checksum;
    };
  })

-- `Response::deserialize`.
unfoldable pub deserialize : Host → Text → Result Response
deserialize h d = do
  validate_available_bytes d 0 response_header_size
  (version, offset_code) ← read_binary_field h.order Sizeof.version d 0
  (net_code, offset_size) ← read_binary_field h.order Sizeof.code d offset_code
  (net_size, offset_payload) ← read_binary_field h.order Sizeof.payload_size d offset_size
  let payload_size = h.ntohl net_size
  let header : ResponseHeader = record {
    version = version;
    response_code = h.ntohs net_code;
    payload_size = payload_size;
  }
  let rest = deserialize_payload h d offset_payload header
  if ltb payload_size fixed_response_payload_size
      then err (runtime_error (text "Malformed response: invalid payload size"))
      else if ltb (length d) (response_header_size + payload_size)
      then err (runtime_error (text "Malformed response: payload is incomplete"))
      else rest
