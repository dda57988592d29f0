-- ===== src/Registration/KeyExchange.antt =====
-- The exchange of the RSA public key and the AES key: src/registration/key_exchange.cpp.
pub mod Key
pub mod Saved
pub mod Accepted
pub mod Answered
use encrypted_backup_client.Crypto.Buffer.{Buffer, null_buffer, buffer_of}
use encrypted_backup_client.Base.{
  ℕ, ◌+◌, ◌-◌, Bool, true, false, not, Option, none, some, ◌++◌, ◌==◌, if◌then◌else◌, length, take,
  replicate, Text, text, text_eq, to_string, Result, ok, err, client_exception, traced_exception,
  foreign_error, undefined_read,
}
use encrypted_backup_client.Protocol.Types.{username_len, rsa_key_len, file_name_len}
use encrypted_backup_client.Protocol.Sizeof
use encrypted_backup_client.Protocol.RequestCode
use encrypted_backup_client.Protocol.ResponseCode
use encrypted_backup_client.Protocol.Fields.{c_string}
use encrypted_backup_client.Protocol.Request.{
  Request, RequestHeader, RequestPayload, init_header, init_payload, set_user_id, set_request_code,
  set_payload_size, set_username, set_public_key,
}
use encrypted_backup_client.Protocol.Response.{Response, get_user_id}
use encrypted_backup_client.System.State.{M, ◌>>=◌, ◌>>◌, return, throw, lift}
use encrypted_backup_client.Utils.Base64
use encrypted_backup_client.System.Platform.{Platform}
use encrypted_backup_client.System.World.{World}
use encrypted_backup_client.System.Files.{
  cl_info_file, aes_key_file, get_client_info_path, get_aes_key_path, write_file, append_file,
  remove_file,
}
use encrypted_backup_client.Crypto.Rsa
use encrypted_backup_client.Crypto.Rsa.{
  make_private, generate_private, get_private_key, export_public_key_into,
}
use encrypted_backup_client.Core.Communication.{send_request, receive_response}
use encrypted_backup_client.Registration.Credentials.{load_username, load_user_id, save_private_key}

-- The three functions of this name in src/registration compute one sum.
abbrev pub get_key_exchange_payload_size : ℕ
get_key_exchange_payload_size =
    username_len + rsa_key_len + Sizeof.enc_chunk_size + Sizeof.file_size + Sizeof.packet_num
    + Sizeof.total_packets + file_name_len

-- A request of the exchange: its header with the code and size, and its payload.
unfoldable pub exchange_request : RequestHeader → ℕ → RequestPayload → Request
exchange_request header code payload = record {
  header = set_payload_size get_key_exchange_payload_size (set_request_code code header);
  payload = payload;
}

-- The first test of a response to the exchange.
unfoldable pub accept_exchange : ℕ → Result (Unit {0})
accept_exchange response_code =
    if response_code == ResponseCode.failed
    then err (traced_exception (text "Server error: RSA key response could not be processed."))
    else ok tt

module _ (P : Platform) where
  unfoldable pub append_private_key_to_client_info : Text → M (World P) (Unit {0})
  append_private_key_to_client_info private_key_base64 w =
      append_file (get_client_info_path w) (get_client_info_path w) private_key_base64 w

  unfoldable pub save_aes_key : Text → M (World P) (Unit {0})
  save_aes_key aes_key w =
      write_file (get_aes_key_path w) (get_aes_key_path w) (Base64.encode P aes_key) w

  abbrev pub same_user_id : Text → Text → Result (Unit {0})
  same_user_id expected actual =
      if text_eq expected actual
      then ok tt
      else err (
          traced_exception (
            text "User ID mismatch: Expected '"
            ++ (expected ++ (text "', received '" ++ (actual ++ text "'.")))))

  unfoldable pub validate_response_user_id : Response → M (World P) (Unit {0})
  validate_response_user_id response = do
    expected ← load_user_id P cl_info_file
    actual ← lift (get_user_id response.payload)
    lift (same_user_id expected actual)

  -- The zeroed `public_key_buff`, after `getPublicKey` wrote into it.
  unfoldable pub public_key_buffer : P.PrivateKey → Result Text
  public_key_buffer key = export_public_key_into P key (some (replicate rsa_key_len 0))

  unfoldable pub send_rsa_public_key : P.PrivateKey → M (World P) (Unit {0})
  send_rsa_public_key key = do
    user_id ← load_user_id P cl_info_file
    username ← load_username P cl_info_file
    header ← lift (set_user_id user_id init_header)
    public_key_buff ← lift (public_key_buffer key)
    payload ← lift (set_public_key (some public_key_buff) (set_username username init_payload))
    let private_key_base64 = Base64.encode P (get_private_key P key)
    append_private_key_to_client_info private_key_base64
    save_private_key P private_key_base64
    send_request P (exchange_request header RequestCode.public_key_send payload)

  -- `decrypt_base64(key.data())`: the vector is read as a C string.
  unfoldable pub decrypt_base64 : P.PrivateKey → Text → Result Text
  decrypt_base64 key encrypted_aes_key = elim (c_string encrypted_aes_key) [
    | none ↦ err undefined_read
    | some base64_cipher ↦ Rsa.decrypt_base64 P key base64_cipher
  ]

  unfoldable pub accept_aes_key : Text → Response → M (World P) (Unit {0})
  accept_aes_key private_key response = do
    key ← lift (make_private P (buffer_of private_key))
    aes_key ← lift (decrypt_base64 key response.payload.encrypted_aes_key)
    save_aes_key aes_key

  abbrev pub registered_no_more : Text
  registered_no_more =
      text
        "It looks like we need to register you again. Please verify your information and try again."

  unfoldable pub refuse_re_registration : M (World P) (Unit {0})
  refuse_re_registration w =
      (remove_file (get_client_info_path w) >> throw (client_exception registered_no_more)) w

  -- What follows the checks, by the code.
  unfoldable pub process_exchange : ℕ → Text → Response → M (World P) (Unit {0})
  process_exchange op_code private_key response =
      let response_code = response.header.response_code in
      if response_code == op_code
      then accept_aes_key private_key response
      else if response_code == ResponseCode.re_registration_failed
      then refuse_re_registration
      else throw (
          traced_exception (
            text "Unexpected response code: Received code '"
            ++ (to_string response_code ++ text "' during RSA key processing.")))

  -- The server's failure code is tested before the user ID, the other codes behind it.
  unfoldable pub handle_rsa_key_response : ℕ → Text → M (World P) (Unit {0})
  handle_rsa_key_response op_code private_key = do
    response ← receive_response P
    lift (accept_exchange response.header.response_code)
    validate_response_user_id response
    process_exchange op_code private_key response

  unfoldable pub complete_registration_key_exchange : M (World P) (Unit {0})
  complete_registration_key_exchange = do
    key ←
        (λ w. let (k, random) = generate_private P w.random in (ok k, record w { random = random }))
    send_rsa_public_key key
    handle_rsa_key_response ResponseCode.key_send_success (get_private_key P key)
