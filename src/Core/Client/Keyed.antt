-- ===== src/Core/Client/Keyed.antt =====
-- Registration and backup together: the key under which the server decrypts an upload is the key that it
-- sent (src/registration/key_exchange.cpp with src/crypto/FileAuthentication.cpp).
use mathlib.Core.Path.{subst}
use encrypted_backup_client.Base.{ℕ, ◌≡◌, sym, ap, ◌∙◌, some, ◌∷◌, ◌++◌, Text, ok}
use encrypted_backup_client.Protocol.Request.{RequestHeader, init_header, set_user_id}
use encrypted_backup_client.System.Platform.{Platform}
use encrypted_backup_client.System.World.{World}
use encrypted_backup_client.System.Files.{cl_info_file}
use encrypted_backup_client.Registration.Credentials.{load_user_id}
use encrypted_backup_client.Registration.Identity.{IsWord}
use encrypted_backup_client.Registration.KeyExchange.Saved.{IsOneLine, load_aes_key-stored}
use encrypted_backup_client.Registration.Flow.Stored.{IsTrim}
use encrypted_backup_client.Registration.Flow.Registered.{IsRegistered}
use encrypted_backup_client.Registration.Flow.Info.{load_user_id-stored}
use encrypted_backup_client.Crypto.Aes.{decrypt}
use encrypted_backup_client.Crypto.Aes.RoundTrip.{IsCipher}
use encrypted_backup_client.Crypto.Upload.{
  Auth, Encrypted, encrypt_file, send_encrypted_file_request,
}
use encrypted_backup_client.Crypto.Upload.Sending.{IsSink}
use encrypted_backup_client.Crypto.Upload.Receipt.{receive_upload}
use encrypted_backup_client.Crypto.Upload.Encryption.{encrypt_file-eq-ok}
use encrypted_backup_client.Crypto.Upload.Received.{IsPadded, send_encrypted_file_request-received}

module _ (P : Platform) (sink : IsSink P) (cipher : IsCipher P) (pads : IsPadded P)
    (trims : IsTrim P) where
  -- In the state that a registration or a re-registration leaves, for a username and a user ID without
  -- blanks, the latter hexadecimal, and an AES key that is one line in Base64, an upload whose file
  -- could be encrypted succeeds, and what it has written is read back by the receiver of the packets
  -- to a text that decrypts, under the very AES key that the server had sent, to the bytes of the
  -- file. The connection, the cipher and the trimming work as documented.
  pub registered-received :
      (file_path file_name username user_id private_key more : Text) (b : ℕ) (bs : Text)
      (e : Encrypted) (header : RequestHeader) (s : Auth P) (w : World P)
      → IsRegistered s.world username user_id private_key (b ∷ bs)
      → IsOneLine P (b ∷ bs)
      → IsWord username
      → IsWord user_id
      → set_user_id user_id init_header ≡ ok header
      → encrypt_file P file_path file_name s.world ≡ (ok e, w)
      → (u : Auth P) × (bytes : Text) × (encrypted_file : Text) × (send_encrypted_file_request P
            file_path file_name s
          ≡ (ok e.file_data, u))
        × (sink.sent u.world.socket ≡ sink.sent s.world.socket ++ bytes)
        × (receive_upload P.host.order (bytes ++ more) ≡ some (encrypted_file, more))
        × (decrypt P (record { key = b ∷ bs }) (some encrypted_file) ≡ ok e.file_data)
  registered-received file_path file_name username user_id private_key more b bs e header s w stored
        line word id_word set encrypted =
      let keyed = load_aes_key-stored P s.world b bs line stored.aes_key_stored in
      let (_, _, _, moved) =
        encrypt_file-eq-ok P file_path file_name (b ∷ bs) e s.world w encrypted keyed in
      let drawn : World P = record s.world { random = w.random } in
      let loaded : load_user_id P cl_info_file w ≡ (ok user_id, w) =
        subst (λ (v : World P). load_user_id P cl_info_file v ≡ (ok user_id, v)) (sym moved)
          (load_user_id-stored P trims drawn username user_id (P.base64_encode private_key) word
            id_word stored.info_stored) in
      let (u, bytes, encrypted_file, uploaded, written, received, decrypted) =
        send_encrypted_file_request-received P sink cipher pads file_path file_name user_id (b ∷ bs)
          more e header s w encrypted keyed loaded set in
      (
        u,
        bytes,
        encrypted_file,
        uploaded,
        written ∙ ap (λ (v : World P). sink.sent v.socket ++ bytes) moved,
        received,
        decrypted,
      )
