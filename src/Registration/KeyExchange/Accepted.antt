-- ===== src/Registration/KeyExchange/Accepted.antt =====
-- When the answer to a key exchange is accepted (handle_rsa_key_response of
-- src/registration/key_exchange.cpp).
use encrypted_backup_client.Crypto.Buffer.{buffer_of}
use encrypted_backup_client.Base.{
  ℕ, ◌≡◌, sym, ap, ◌==◌, ==_iff, Bool-cases, inl, inr, Text, text_eq→eq, some, ok, arith,
}
use encrypted_backup_client.Protocol.ResponseCode
use encrypted_backup_client.Protocol.Response.{Response, get_user_id}
use encrypted_backup_client.System.State.{>>=-eq-ok, lift-eq-ok}
use encrypted_backup_client.System.Platform.{Platform}
use encrypted_backup_client.System.World.{World, regular_file, with_file}
use encrypted_backup_client.System.Files.{
  remove_file, get_client_info_path, cl_info_file, get_aes_key_path, write_file,
}
use encrypted_backup_client.Core.Communication.{receive_response}
use encrypted_backup_client.Registration.Credentials.{load_user_id}
use encrypted_backup_client.Crypto.Rsa.{make_private}
use encrypted_backup_client.Registration.KeyExchange.{
  accept_exchange, process_exchange, same_user_id, validate_response_user_id, decrypt_base64,
  save_aes_key, accept_aes_key, refuse_re_registration, handle_rsa_key_response,
}

module _ (P : Platform) (op_code : ℕ) (private_key : Text) where
  -- The evidence behind an accepted answer: the response, the user ID on disk, and the key.
  pub record IsAccepted (w t : World P) : Type 0 where
    pub response : Response
    pub received : World P
    pub checked : World P
    pub user_id : Text
    pub key : P.PrivateKey
    pub aes_key : Text
    pub receive_ok : receive_response P w ≡ (ok response, received)
    pub expected_code : response.header.response_code ≡ op_code
    pub loaded : load_user_id P cl_info_file received ≡ (ok user_id, checked)
    pub same_user : get_user_id response.payload ≡ ok user_id
    pub key_loaded : make_private P (buffer_of private_key) ≡ ok key
    pub decrypted : decrypt_base64 P key response.payload.encrypted_aes_key ≡ ok aes_key
    pub saved : t ≡ record checked {
      files =
          with_file checked.files
            (get_aes_key_path checked)
            (some (regular_file (P.base64_encode aes_key)));
    }

  same_user_id-eq-ok : (a b : Text) → same_user_id P a b ≡ ok tt → a ≡ b
  same_user_id-eq-ok a b h = ground (arith, text_eq→eq a b)

  save_aes_key-eq-ok :
      (aes_key : Text) (w t : World P)
      → save_aes_key P aes_key w ≡ (ok tt, t)
      → t ≡ record w {
        files =
            with_file w.files (get_aes_key_path w) (some (regular_file (P.base64_encode aes_key)));
      }
  unfolding save_aes_key write_file
  save_aes_key-eq-ok aes_key w t h = elim (Bool-cases (w.writable (get_aes_key_path w))) [
    | inl open_file ↦ let written = rw open_file at h in sym (ap (λ x. x.1) written)
    | inr refused ↦ let bad = rw refused at h in cc
  ]

  refused-eq-ok : (w t : World P) → refuse_re_registration P w ≡ (ok tt, t) → ⊥
  unfolding refuse_re_registration remove_file
  refused-eq-ok w t h = elim (Bool-cases (w.removable (get_client_info_path w))) [
    | inl removes ↦ let bad = rw removes at h in cc
    | inr fixed ↦ let bad = rw fixed at h in cc
  ]

  accept_aes_key-eq-ok :
      (r : Response) (w t : World P)
      → accept_aes_key P private_key r w ≡ (ok tt, t)
      → (key : P.PrivateKey) × (aes_key : Text) × (make_private P (buffer_of private_key) ≡ ok key)
        × (decrypt_base64 P key r.payload.encrypted_aes_key ≡ ok aes_key)
        × (save_aes_key P aes_key w ≡ (ok tt, t))
  unfolding accept_aes_key
  accept_aes_key-eq-ok r w t h =
      let (key, loaded, h1) = lift-eq-ok (make_private P (buffer_of private_key)) _ w h in
      let (aes_key, decrypted, h2) =
        lift-eq-ok (decrypt_base64 P key r.payload.encrypted_aes_key) _ w h1 in
      (key, aes_key, loaded, decrypted, h2)

  -- Only the expected code gets behind the tests of the code.
  process_exchange-eq-ok :
      (r : Response) (w t : World P)
      → process_exchange P op_code private_key r w ≡ (ok tt, t)
      → (r.header.response_code ≡ op_code) × (accept_aes_key P private_key r w ≡ (ok tt, t))
  unfolding process_exchange
  process_exchange-eq-ok r w t h = elim (Bool-cases (r.header.response_code == op_code)) [
    | inl expected ↦ ((==_iff r.header.response_code op_code).0 expected, rw expected at h)
    | inr other ↦
        let left = rw other at h in
        elim (Bool-cases (r.header.response_code == ResponseCode.re_registration_failed)) [
          | inl failed ↦ absurd (refused-eq-ok w t (rw failed at left))
          | inr unexpected ↦ let bad = rw unexpected at left in cc
        ]
  ]

  validate-eq-ok :
      (r : Response) (w t : World P)
      → validate_response_user_id P r w ≡ (ok tt, t)
      → (user_id : Text) × (load_user_id P cl_info_file w ≡ (ok user_id, t))
        × (get_user_id r.payload ≡ ok user_id)
  unfolding validate_response_user_id
  validate-eq-ok r w t h =
      let (expected, v, loaded, h1) = >>=-eq-ok (load_user_id P cl_info_file) _ w h in
      let (actual, read, h2) = lift-eq-ok (get_user_id r.payload) _ v h1 in
      let same : expected ≡ actual = same_user_id-eq-ok expected actual (ap (λ x. x.0) h2) in
      let there : v ≡ t = ap (λ x. x.1) h2 in (expected, cc (loaded, there), cc (read, same))

  -- The answer to a key exchange is accepted only if it has the expected code and the user ID that
  -- is stored, and the AES key that is then stored, in Base64, is what the client's private key
  -- decrypts from the answer; nothing else is changed behind the checks.
  pub handle_rsa_key_response-IsAccepted :
      (w t : World P)
      → handle_rsa_key_response P op_code private_key w ≡ (ok tt, t)
      → IsAccepted w t
  unfolding handle_rsa_key_response
  handle_rsa_key_response-IsAccepted w t h =
      let (r, received, got, h1) = >>=-eq-ok (receive_response P) _ w h in
      let (_, _, h2) = lift-eq-ok (accept_exchange r.header.response_code) _ received h1 in
      let (_, checked, validated, h3) = >>=-eq-ok (validate_response_user_id P r) _ received h2 in
      let (user_id, loaded, same) = validate-eq-ok r received checked validated in
      let (code, accepted) = process_exchange-eq-ok r checked t h3 in
      let (key, aes_key, key_loaded, decrypted, stored) =
        accept_aes_key-eq-ok r checked t accepted in
      record {
        response = r;
        received = received;
        checked = checked;
        user_id = user_id;
        key = key;
        aes_key = aes_key;
        receive_ok = got;
        expected_code = code;
        loaded = loaded;
        same_user = same;
        key_loaded = key_loaded;
        decrypted = decrypted;
        saved = save_aes_key-eq-ok aes_key checked t stored;
      }
