-- ===== src/Registration/KeyExchange/Answered.antt =====
-- A key exchange that the server answers (src/registration/key_exchange.cpp): what the client sends, and
-- the answer that it takes.
use encrypted_backup_client.Base.{
  ℕ, ◌≡◌, refl, ◌∙◌, true, false, some, ◌++◌, ◌==◌, ==_refl, length, length-append, length-take,
  length-drop, length-replicate, drop, take, replicate, ltb, text_eq_refl, IsBytes, Text, ok, arith,
}
use encrypted_backup_client.Protocol.Types.{rsa_key_len}
use encrypted_backup_client.Protocol.Bytes.{IsNetworkOrder}
use encrypted_backup_client.Protocol.RequestCode
use encrypted_backup_client.Protocol.ResponseCode
use encrypted_backup_client.Protocol.Fields.{c_string}
use encrypted_backup_client.Protocol.Request.{
  RequestHeader, RequestPayload, init_header, init_payload, set_user_id, set_username,
  set_public_key,
}
use encrypted_backup_client.Protocol.Response.{Response}
use encrypted_backup_client.Protocol.Response.RoundTrip.{write_response}
use encrypted_backup_client.System.Platform.{Platform}
use encrypted_backup_client.System.World.{World, with_file, regular_file}
use encrypted_backup_client.System.Files.{
  cl_info_file, get_client_info_path, get_private_key_path, get_aes_key_path, write_file,
  append_file, old_content,
}
use encrypted_backup_client.Core.Communication.Framing.{receive_response-write_response}
use encrypted_backup_client.Registration.Credentials.{load_username, load_user_id, save_private_key}
use encrypted_backup_client.Crypto.Rsa
use encrypted_backup_client.Crypto.Rsa.{
  array_sink, make_private, get_private_key, export_public_key_into,
}
use encrypted_backup_client.Crypto.Backup.Answers.{
  IsDuplex, IsAnswer, pending, send_request-pending, load_user_id-moved,
}
use encrypted_backup_client.Registration.KeyExchange.{
  exchange_request, accept_exchange, process_exchange, validate_response_user_id,
  append_private_key_to_client_info, public_key_buffer, send_rsa_public_key, decrypt_base64,
  save_aes_key, accept_aes_key, handle_rsa_key_response,
}

length-array_sink : (buffer bytes : Text) → length (array_sink buffer bytes) ≡ length buffer
unfolding array_sink
length-array_sink buffer bytes = omega (
  arith,
  length-append (take (length buffer) bytes) (drop (length bytes) buffer),
  length-take (length buffer) bytes,
  length-drop (length bytes) buffer,
)

-- A buffer that is long enough is always taken.
set_public_key_full :
    (buffer : Text) (p : RequestPayload)
    → length buffer ≡ rsa_key_len
    → (q : RequestPayload) × (set_public_key (some buffer) p ≡ ok q)
unfolding set_public_key
set_public_key_full buffer p h =
    let long : ltb (length buffer) rsa_key_len ≡ false = ground arith in
    (record p { public_key = take rsa_key_len buffer }, rw long)

-- The files after the keys of a registration were stored.
abbrev pub keys_stored : {P : Platform} → World P → Text → World P
keys_stored w encoded = record w {
  files =
      with_file
        (with_file w.files (get_client_info_path w)
          (some (regular_file (old_content (w.files (get_client_info_path w)) ++ encoded))))
        (get_private_key_path w) (some (regular_file encoded));
}

module _ (P : Platform) (duplex : IsDuplex P) (net : IsNetworkOrder P.host) where
  -- The public key is sent behind the private key's two files.
  pub send_rsa_public_key-answered :
      (key : P.PrivateKey) (username user_id : Text) (header : RequestHeader) (w : World P)
      → load_user_id P cl_info_file w ≡ (ok user_id, w)
      → load_username P cl_info_file w ≡ (ok username, w)
      → set_user_id user_id init_header ≡ ok header
      → w.writable (get_client_info_path w) ≡ true
      → w.writable (get_private_key_path w) ≡ true
      → let v = keys_stored w (P.base64_encode (P.save_key key)) in
        (t : P.Socket) × (send_rsa_public_key P key w ≡ (ok tt, record v { socket = t }))
        × (pending P duplex net t ≡ pending P duplex net w.socket)
  unfolding send_rsa_public_key public_key_buffer export_public_key_into get_private_key
      append_private_key_to_client_info append_file write_file save_private_key
  send_rsa_public_key-answered key username user_id header w loaded named set info private =
      let buffer = array_sink (replicate rsa_key_len 0) (P.save_public_key (P.public_part key)) in
      let (q, keyed) =
        set_public_key_full buffer (set_username username init_payload) (
          length-array_sink (replicate rsa_key_len 0) _ ∙ length-replicate {A = ℕ} rsa_key_len 0) in
      let v = keys_stored w (P.base64_encode (P.save_key key)) in
      let (t, sent, kept) =
        send_request-pending P duplex net (exchange_request header RequestCode.public_key_send q)
          v in
      (t, rw (loaded, named, set, keyed, info, private, sent) refl, kept)

  -- An answer with the expected code, addressed to this client: its AES key is stored.
  pub handle_rsa_key_response-answered :
      (op_code : ℕ) (private_key user_id cipher aes : Text) (key : P.PrivateKey) (r : Response)
      (rest : Text) (w : World P)
      → (op_code == ResponseCode.failed) ≡ false
      → IsAnswer user_id op_code r
      → load_user_id P cl_info_file w ≡ (ok user_id, w)
      → P.load_key private_key ≡ some key
      → c_string r.payload.encrypted_aes_key ≡ some cipher
      → Rsa.decrypt_base64 P key cipher ≡ ok aes
      → w.writable (get_aes_key_path w) ≡ true
      → IsBytes rest
      → pending P duplex net w.socket ≡ write_response r rest
      → (t : P.Socket) × (handle_rsa_key_response P op_code private_key w ≡ (
        ok tt,
        record w {
          socket = t;
          files =
              with_file w.files (get_aes_key_path w) (some (regular_file (P.base64_encode aes)));
        },
      ))
        × (pending P duplex net t ≡ rest)
  unfolding handle_rsa_key_response accept_exchange validate_response_user_id process_exchange
      accept_aes_key make_private decrypt_base64 save_aes_key write_file
  handle_rsa_key_response-answered op_code private_key user_id cipher aes key r rest w usual a
        loaded known written decrypted writable more waiting =
      let (t, received, left) =
        receive_response-write_response P duplex.stream net w r rest a.valid more waiting in
      (
        t,
        rw
            (
              received,
              a.coded,
              usual,
              load_user_id-moved P duplex net w user_id t w.output loaded,
              a.addressed,
              text_eq_refl user_id,
              ==_refl op_code,
              known,
              written,
              decrypt_base64,
              decrypted,
              writable,
            )
            refl,
        left,
      )
