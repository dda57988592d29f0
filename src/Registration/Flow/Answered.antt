-- ===== src/Registration/Flow/Answered.antt =====
-- A registration that the server answers (src/registration/registration_flow.cpp and
-- src/registration/key_exchange.cpp).
use mathlib.Core.Path.{subst}
use encrypted_backup_client.Crypto.Buffer.{buffer_of}
use encrypted_backup_client.Base.{
  Result, ℕ, suc, ◌≡◌, refl, ap, ◌∙◌, true, some, [], ◌∷◌, length, text_eq_refl, IsBytes, Text, ok,
}
use encrypted_backup_client.Protocol.Bytes.{IsNetworkOrder}
use encrypted_backup_client.Protocol.RequestCode
use encrypted_backup_client.Protocol.ResponseCode
use encrypted_backup_client.Protocol.Fields.{c_string}
use encrypted_backup_client.Protocol.Request.{init_header, init_payload, set_username}
use encrypted_backup_client.Protocol.Response.{Response}
use encrypted_backup_client.Protocol.Response.RoundTrip.{write_response, IsBytes-write_response}
use encrypted_backup_client.System.Platform.{Platform}
use encrypted_backup_client.System.World.{World, with_file, regular_file, registered}
use encrypted_backup_client.System.Files.{get_client_info_path, get_aes_key_path, write_file}
use encrypted_backup_client.Core.Communication.Framing.{receive_response-write_response}
use encrypted_backup_client.Crypto.Rsa.{generate_private, get_private_key, encrypt}
use encrypted_backup_client.Crypto.Rsa.Exchange.{IsKeyPair, decrypt_base64-encrypt}
use encrypted_backup_client.Crypto.Backup.Answers.{
  IsDuplex, IsAnswer, pending, send_request-pending,
}
use encrypted_backup_client.Registration.Identity.{
  IsWord, get_user_id-IsWord, set_user_id-get_user_id, is_valid_username-IsWord,
}
use encrypted_backup_client.Registration.KeyExchange.{
  exchange_request, complete_registration_key_exchange,
}
use encrypted_backup_client.Registration.KeyExchange.Answered.{
  keys_stored, send_rsa_public_key-answered, handle_rsa_key_response-answered,
}
use encrypted_backup_client.Registration.Flow.{
  prompt_valid_username, send_registration_request, save_client_registration_info,
  save_registration, handle_registration_response, register_username, client_registration,
}
use encrypted_backup_client.Registration.Flow.Prompt.{IsPrompted, prompt_valid_username-IsPrompted}
use encrypted_backup_client.Registration.Flow.Stored.{IsTrim, registered_world}
use encrypted_backup_client.Registration.Flow.Registered.{
  IsRegistered, IsWritable, keys_stored-info, keys_stored-private_key, with_aes_key-IsRegistered,
}
use encrypted_backup_client.Registration.Flow.Info.{
  info_content, load_username-stored, load_user_id-stored,
}

module _ (P : Platform) (duplex : IsDuplex P) (net : IsNetworkOrder P.host) where
  -- A username that the server takes is stored with the user ID of the answer.
  register_username-answered :
      (username user_id : Text) (accepted : Response) (rest : Text) (w v : World P)
      → prompt_valid_username P (suc (length w.input)) w ≡ (ok username, v)
      → IsAnswer user_id ResponseCode.registration_success accepted
      → v.writable (get_client_info_path v) ≡ true
      → IsBytes rest
      → pending P duplex net v.socket ≡ write_response accepted rest
      → (t : P.Socket) × (register_username P (suc (length w.input)) w
          ≡ (ok username, record (registered_world v username user_id) { socket = t }))
        × (pending P duplex net t ≡ rest)
  unfolding register_username send_registration_request handle_registration_response
      save_registration save_client_registration_info write_file
  register_username-answered username user_id accepted rest w v given a writable more waiting =
      let r =
        exchange_request init_header RequestCode.registration
          (set_username username init_payload) in
      let (t, sent, kept) = send_request-pending P duplex net r v in
      let (u, received, left) =
        receive_response-write_response P duplex.stream net (record v { socket = t }) accepted rest
          a.valid more (kept ∙ waiting) in
      (u, rw (given, sent, received, a.coded, a.addressed, writable) refl, left)

  -- The keys are exchanged for a client whose registration is stored.
  exchange-answered :
      (trims : IsTrim P) (username user_id plain cipher : Text) (keyed : Response) (rest : Text)
      (n : ℕ) (r s : P.Random) (w : World P)
      → let key = (P.generate_key w.random).0 in
        IsWord username
        → w.files (get_client_info_path w) ≡ some (regular_file (info_content username user_id []))
        → IsWritable w
        → IsAnswer user_id ResponseCode.key_send_success keyed
        → IsKeyPair P key n
        → P.load_key (P.save_key key) ≡ some key
        → encrypt P (P.public_part key) (buffer_of plain) r ≡ (ok cipher, s)
        → c_string keyed.payload.encrypted_aes_key ≡ some (P.base64_encode cipher)
        → IsBytes rest
        → pending P duplex net w.socket ≡ write_response keyed rest
        → (t : World P) × (complete_registration_key_exchange P w ≡ (ok tt, t))
          × IsRegistered t username user_id (P.save_key key) plain
          × (t.output ≡ w.output)
          × (pending P duplex net t.socket ≡ rest)
  unfolding complete_registration_key_exchange generate_private get_private_key
  exchange-answered trims username user_id plain cipher keyed rest n r s w word stored writable a
        pair known encrypted terminated more waiting =
      let key = (P.generate_key w.random).0 in
      let drawn : World P = record w { random = (P.generate_key w.random).1 } in
      let id_word = get_user_id-IsWord keyed.payload user_id a.addressed in
      let set =
        set_user_id-get_user_id keyed.payload user_id a.valid.user_id_size a.valid.user_id_bytes
          a.addressed in
      let (t, sent, kept) =
        send_rsa_public_key-answered P duplex net key username user_id _ drawn
          (load_user_id-stored P trims drawn username user_id [] word id_word stored)
          (load_username-stored P trims drawn username user_id [] word id_word stored) set
          writable.client_info writable.private_key in
      let encoded = P.base64_encode (P.save_key key) in
      let v : World P = record (keys_stored drawn encoded) { socket = t } in
      let info = keys_stored-info drawn username user_id encoded stored in
      let (_, _, _, decrypted) = decrypt_base64-encrypt P key n pair plain cipher r s encrypted in
      let (u, answered, left) =
        handle_rsa_key_response-answered P duplex net ResponseCode.key_send_success (P.save_key key)
          user_id (P.base64_encode cipher) plain key keyed rest v refl a
          (load_user_id-stored P trims v username user_id encoded word id_word info) known
          terminated decrypted writable.aes_key more (kept ∙ waiting) in
      (
        record v {
          socket = u;
          files =
              with_file v.files (get_aes_key_path v) (some (regular_file (P.base64_encode plain)));
        },
        rw (sent, answered) refl,
        with_aes_key-IsRegistered v _ username user_id (P.save_key key) plain info
            (keys_stored-private_key drawn username user_id encoded) refl refl,
        refl,
        left,
      )

  -- When the user gives a valid username, the server takes it and sends a user ID, and then sends,
  -- for this user ID, the AES key encrypted under the public key of the client's new key pair, in
  -- Base64 and ended by a zero byte, a first registration succeeds: it stores the username, the user
  -- ID, the private key and the AES key in the client's three files, greets the user, and consumes
  -- exactly the server's two answers. The connection holds, the three files can be written, and the
  -- key pair, the codecs and the trimming work as documented.
  pub client_registration-answered :
      (trims : IsTrim P) (username user_id plain cipher : Text) (accepted keyed : Response)
      (rest : Text) (n : ℕ) (r s : P.Random) (w v : World P)
      → let key = (P.generate_key v.random).0 in
        prompt_valid_username P (suc (length w.input)) w ≡ (ok username, v)
        → IsWritable v
        → IsAnswer user_id ResponseCode.registration_success accepted
        → IsAnswer user_id ResponseCode.key_send_success keyed
        → IsKeyPair P key n
        → P.load_key (P.save_key key) ≡ some key
        → encrypt P (P.public_part key) (buffer_of plain) r ≡ (ok cipher, s)
        → c_string keyed.payload.encrypted_aes_key ≡ some (P.base64_encode cipher)
        → IsBytes rest
        → pending P duplex net v.socket ≡ write_response accepted (write_response keyed rest)
        → (t : World P) × (client_registration P w ≡ (ok tt, t))
          × IsRegistered t username user_id (P.save_key key) plain
          × (t.output ≡ registered username ∷ v.output)
          × (pending P duplex net t.socket ≡ rest)
  unfolding client_registration
  client_registration-answered trims username user_id plain cipher accepted keyed rest n r s w v
        given writable takes answers pair known encrypted terminated more waiting =
      let valid =
        subst IsPrompted (ap (λ (x : Result Text × World P). x.0) given)
          (prompt_valid_username-IsPrompted P w) in
      let word = is_valid_username-IsWord username valid.0 in
      let (t, stored, kept) =
        register_username-answered username user_id accepted (write_response keyed rest) w v given
          takes writable.client_info (IsBytes-write_response keyed rest answers.valid more)
          waiting in
      let x : World P = record (registered_world v username user_id) { socket = t } in
      let (u, exchanged, complete, shown, left) =
        exchange-answered trims username user_id plain cipher keyed rest n r s x word
          (rw (text_eq_refl (get_client_info_path v)) refl)
          (record {
            client_info = writable.client_info;
            private_key = writable.private_key;
            aes_key = writable.aes_key;
          })
          answers pair known encrypted terminated more kept in
      (
        record u { output = registered username ∷ u.output },
        rw (stored, exchanged) refl,
        record {
          info_stored = complete.info_stored;
          private_key_stored = complete.private_key_stored;
          aes_key_stored = complete.aes_key_stored;
        },
        ap (◌∷◌ (registered username)) shown,
        left,
      )
