-- ===== src/Crypto/Upload/Moved.antt =====
-- An encryption depends on the files and the random pool only, not on the socket and the console
-- (encrypt_file of src/crypto/FileAuthentication.cpp, load_aes_key of
-- src/registration/client_credentials.cpp).
use encrypted_backup_client.Base.{
  ◌≡◌, refl, ap, List, [], ◌∷◌, Option-cases, inl, inr, Text, text, Result, ok,
}
use encrypted_backup_client.Utils.Base64
use encrypted_backup_client.System.State.{◌>>=◌, lift}
use encrypted_backup_client.System.Platform.{Platform}
use encrypted_backup_client.System.World.{World, Line, resolve}
use encrypted_backup_client.System.Files.{lines, open_file, aes_key_file}
use encrypted_backup_client.Registration.Credentials.{
  open_input_file, read_required_line, non_empty, load_aes_key,
}
use encrypted_backup_client.Crypto.Upload.{Encrypted, encrypt_file}
use encrypted_backup_client.Crypto.Upload.Encryption.{IsEncryption, encrypt_file_iff}

-- The world with another socket, another output and another state of the random pool.
abbrev pub stirred : {P : Platform} → World P → P.Socket → List Line → P.Random → World P
stirred w t out random = record w { socket = t; output = out; random = random }

module _ (P : Platform) where
  decoded-moved :
      (decoded message key : Text) (v w : World P)
      → (lift (non_empty P decoded message) w ≡ (ok key, w))
      → (lift (non_empty P decoded message) v ≡ (ok key, v))
  decoded-moved [] message key v w h = cc
  decoded-moved (b ∷ bs) message key v w h =
      let same : ok (b ∷ bs) ≡ ok key = ap (λ (x : Result Text × World P). x.0) h in
      ap (λ (r : Result Text). (r, v)) same

  key_line-moved :
      (ls : List Text) (name key : Text) (v w : World P)
      → let decode = λ (x : Text × List Text).
        lift {S = World P} (non_empty P (Base64.decode P x.0) (text "Decoded AES key is empty.")) in
        let read =
          lift {S = World P} (read_required_line P ls name (text "Failed to read AES key")) in
        (read >>= decode) w ≡ (ok key, w) → (read >>= decode) v ≡ (ok key, v)
  unfolding read_required_line
  key_line-moved [] name key v w h = cc
  key_line-moved (l ∷ ls) name key v w h =
      decoded-moved (Base64.decode P (P.trim l)) (text "Decoded AES key is empty.") key v w h

  load_aes_key-moved :
      (name key : Text) (w : World P) (t : P.Socket) (out : List Line) (random : P.Random)
      → load_aes_key P name w ≡ (ok key, w)
      → load_aes_key P name (stirred w t out random) ≡ (ok key, stirred w t out random)
  unfolding load_aes_key open_input_file open_file
  load_aes_key-moved name key w t out random h = elim (Option-cases (w.files (resolve w name))) [
    | inl missing ↦ let bad = rw missing at h in cc
    | inr (file, found) ↦
        let known = rw found at h in
        rw (found, load_aes_key, open_input_file, open_file)
          (key_line-moved (lines file.content) name key (stirred w t out random) w known)
  ]

  -- The same file is encrypted alike in a state with another socket and output.
  pub encrypt_file-moved :
      (file_path file_name : Text) (e : Encrypted) (w : World P) (r next : P.Random) (t : P.Socket)
      (out : List Line)
      → IsEncryption P file_path e (record w { random = r }) (record w { random = next })
      → encrypt_file P file_path file_name (stirred w t out r) ≡ (ok e, stirred w t out next)
  encrypt_file-moved file_path file_name e w r next t out p =
      (encrypt_file_iff P file_path file_name e (stirred w t out r) (stirred w t out next)).1
        (record {
          file = p.file;
          key = p.key;
          found = p.found;
          measured = p.measured;
          small = p.small;
          whole = p.whole;
          taken = p.taken;
          keyed = load_aes_key-moved aes_key_file p.key (record w { random = r }) t out r p.keyed;
          key_sized = p.key_sized;
          sealed = p.sealed;
          kept = refl;
        })
