-- ===== src/Registration/KeyExchange/Saved.antt =====
-- The AES key that the key exchange stores is the one that an upload loads (save_aes_key of
-- src/registration/key_exchange.cpp, load_aes_key of src/registration/client_credentials.cpp).
use encrypted_backup_client.Base.{
  ℕ, ◌≡◌, ◌≢◌, refl, true, some, [], ◌∷◌, ◌++◌, All, Text, text_eq_refl, ok,
}
use encrypted_backup_client.System.Platform.{Platform}
use encrypted_backup_client.System.World.{World, with_file, regular_file}
use encrypted_backup_client.System.Files.{
  lines-newline, open_file, write_file, aes_key_file, get_aes_key_path,
}
use encrypted_backup_client.Registration.Credentials.{
  open_input_file, read_required_line, load_aes_key,
}
use encrypted_backup_client.Registration.KeyExchange.{save_aes_key}

-- What Crypto++ does with a text that encodes to one line: the encoder ends the line, the decoder
-- gives the text back, and there is nothing to trim.
pub record IsOneLine (P : Platform) (key : Text) : Type 0 where
  pub line : Text
  pub encoded : P.base64_encode key ≡ line ++ (10 ∷ [])
  pub unbroken : All (λ c. c ≢ 10) line
  pub trimmed : P.trim line ≡ line
  pub decoded : P.base64_decode line ≡ key

-- The state with a stored key.
abbrev keyed_world : {P : Platform} → World P → Text → World P
keyed_world {P} w key = record w {
  files = with_file w.files (get_aes_key_path w) (some (regular_file (P.base64_encode key)));
}

module _ (P : Platform) where
  -- A key file with one line of Base64 is loaded.
  pub load_aes_key-stored :
      (w : World P) (b : ℕ) (bs : Text)
      → IsOneLine P (b ∷ bs)
      → w.files (get_aes_key_path w) ≡ some (regular_file (P.base64_encode (b ∷ bs)))
      → load_aes_key P aes_key_file w ≡ (ok (b ∷ bs), w)
  unfolding load_aes_key open_input_file open_file read_required_line
  load_aes_key-stored w b bs v stored =
      rw (stored, v.encoded, lines-newline v.line [] v.unbroken, v.trimmed, v.decoded) refl

  -- The key that a response brought is stored and loaded again unchanged, when its file can be
  -- written, its encoding is one line and it is not empty.
  load_aes_key-save_aes_key :
      (w : World P) (b : ℕ) (bs : Text)
      → IsOneLine P (b ∷ bs)
      → w.writable (get_aes_key_path w) ≡ true
      → let t = keyed_world w (b ∷ bs) in
        (save_aes_key P (b ∷ bs) w ≡ (ok tt, t))
        × (load_aes_key P aes_key_file t ≡ (ok (b ∷ bs), t))
  unfolding save_aes_key write_file
  load_aes_key-save_aes_key w b bs v writable = (
    rw writable,
    load_aes_key-stored (keyed_world w (b ∷ bs)) b bs v
        (rw (text_eq_refl (get_aes_key_path w)) refl),
  )
