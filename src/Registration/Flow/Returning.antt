-- ===== src/Registration/Flow/Returning.antt =====
-- A re-registration that the server answers (src/registration/re_registration_flow.cpp and
-- src/registration/key_exchange.cpp).
use encrypted_backup_client.Crypto.Buffer.{buffer_of}
use encrypted_backup_client.Base.{ℕ, ◌≡◌, refl, ◌∙◌, true, some, ◌∷◌, ◌++◌, IsBytes, Text, ok}
use encrypted_backup_client.Protocol.Bytes.{IsNetworkOrder}
use encrypted_backup_client.Protocol.RequestCode
use encrypted_backup_client.Protocol.ResponseCode
use encrypted_backup_client.Protocol.Fields.{c_string}
use encrypted_backup_client.Protocol.Request.{init_header, init_payload, set_username}
use encrypted_backup_client.Protocol.Response.{Response}
use encrypted_backup_client.Protocol.Response.RoundTrip.{write_response}
use encrypted_backup_client.System.Platform.{Platform}
use encrypted_backup_client.System.World.{World, with_file, regular_file, welcome_back}
use encrypted_backup_client.System.Files.{
  lines, cl_info_file, get_client_info_path, get_aes_key_path,
}
use encrypted_backup_client.Crypto.Rsa.{encrypt}
use encrypted_backup_client.Crypto.Rsa.Exchange.{IsKeyPair, decrypt_base64-encrypt}
use encrypted_backup_client.Crypto.Backup.Answers.{
  IsDuplex, IsAnswer, pending, send_request-pending,
}
use encrypted_backup_client.Registration.Credentials.{concat_lines, load_private_key}
use encrypted_backup_client.Registration.Identity.{
  IsWord, get_user_id-IsWord, set_user_id-get_user_id,
}
use encrypted_backup_client.Registration.KeyExchange.{exchange_request}
use encrypted_backup_client.Registration.KeyExchange.Answered.{handle_rsa_key_response-answered}
use encrypted_backup_client.Registration.Flow.{client_re_registration}
use encrypted_backup_client.Registration.Flow.Stored.{IsTrim}
use encrypted_backup_client.Registration.Flow.Registered.{IsRegistered, with_aes_key-IsRegistered}
use encrypted_backup_client.Registration.Flow.Info.{
  load_username-stored, load_user_id-stored, load_private_key-stored,
}

-- A text whose Base64 has line breaks: read line by line it has at least one character, and it is
-- decoded to the text.
pub record IsEncoded (P : Platform) (s : Text) : Type 0 where
  pub first : ℕ
  pub others : Text
  pub joined : concat_lines P (lines (P.base64_encode s)) ≡ first ∷ others
  pub decoded : P.base64_decode (first ∷ others) ≡ s

module _ (P : Platform) (duplex : IsDuplex P) (net : IsNetworkOrder P.host) (trims : IsTrim P) where
  -- The stored key is loaded.
  load_private_key-encoded :
      (username user_id private_key : Text) (w : World P)
      → (e : IsEncoded P private_key) → IsWord username
      → IsWord user_id
      → w.files (get_client_info_path w)
        ≡ some (regular_file (username ++ (10 ∷ (user_id ++ (10 ∷ P.base64_encode private_key)))))
      → load_private_key P cl_info_file w ≡ (ok (e.first ∷ e.others), w)
  load_private_key-encoded username user_id private_key w e word id_word stored =
      rw
        (
          load_private_key-stored P trims w username user_id (P.base64_encode private_key) word
              id_word stored,
          e.joined,
        )
        refl

  -- A client whose files a registration left, and whose username has no blank, is welcomed back when
  -- the server answers its re-registration, for its user ID, with a new AES key that is encrypted
  -- under its public key, in Base64 and ended by a zero byte: the run of the flow succeeds, the new
  -- AES key is stored in place of the old one and the other two files are as before, and exactly the
  -- answer is consumed. The connection holds, the key's file can be written, and the key pair, the
  -- codecs and the trimming work as documented.
  pub client_re_registration-answered :
      (username user_id private_key old_key plain cipher : Text) (key : P.PrivateKey)
      (answer : Response) (rest : Text) (n : ℕ) (r s : P.Random) (w : World P)
      → IsRegistered w username user_id private_key old_key
      → IsWord username
      → IsEncoded P private_key
      → w.writable (get_aes_key_path w) ≡ true
      → IsAnswer user_id ResponseCode.re_registration_success answer
      → IsKeyPair P key n
      → P.load_key private_key ≡ some key
      → encrypt P (P.public_part key) (buffer_of plain) r ≡ (ok cipher, s)
      → c_string answer.payload.encrypted_aes_key ≡ some (P.base64_encode cipher)
      → IsBytes rest
      → pending P duplex net w.socket ≡ write_response answer rest
      → (t : World P) × (client_re_registration P w ≡ (ok tt, t))
        × IsRegistered t username user_id private_key plain
        × (t.output ≡ welcome_back username ∷ w.output)
        × (pending P duplex net t.socket ≡ rest)
  unfolding client_re_registration
  client_re_registration-answered username user_id private_key old_key plain cipher key answer rest
        n r s w stored word e writable a pair known encrypted terminated more waiting =
      let id_word = get_user_id-IsWord answer.payload user_id a.addressed in
      let set =
        set_user_id-get_user_id answer.payload user_id a.valid.user_id_size a.valid.user_id_bytes
          a.addressed in
      let encoded = P.base64_encode private_key in
      let loaded =
        load_user_id-stored P trims w username user_id encoded word id_word stored.info_stored in
      let header = record init_header { user_id = answer.payload.user_id } in
      let request =
        exchange_request header RequestCode.re_registration (set_username username init_payload) in
      let (t, sent, kept) = send_request-pending P duplex net request w in
      let v : World P = record w { socket = t } in
      let (_, _, _, decrypted) = decrypt_base64-encrypt P key n pair plain cipher r s encrypted in
      let (u, answered, left) =
        handle_rsa_key_response-answered P duplex net ResponseCode.re_registration_success
          private_key user_id (P.base64_encode cipher) plain key answer rest v refl a
          (load_user_id-stored P trims v username user_id encoded word id_word stored.info_stored)
          known terminated decrypted writable more (kept ∙ waiting) in
      (
        record v {
          socket = u;
          files =
              with_file v.files (get_aes_key_path v) (some (regular_file (P.base64_encode plain)));
          output = welcome_back username ∷ v.output;
        },
        rw
            (
              load_username-stored P trims w username user_id encoded word id_word
                  stored.info_stored,
              loaded,
              load_private_key-encoded username user_id private_key w e word id_word
                  stored.info_stored,
              e.decoded,
              set,
              sent,
              answered,
            )
            refl,
        with_aes_key-IsRegistered w _ username user_id private_key plain stored.info_stored
            stored.private_key_stored refl refl,
        refl,
        left,
      )
