-- ===== src/Registration/Flow/Registered.antt =====
-- The files that a registration leaves (src/registration/registration_flow.cpp and
-- src/registration/key_exchange.cpp).
use encrypted_backup_client.Base.{
  ◌≡◌, refl, ap, ◌∙◌, true, some, [], ◌∷◌, ◌++◌, append_assoc, text_eq_refl, Text,
}
use encrypted_backup_client.System.Platform.{Platform}
use encrypted_backup_client.System.World.{World, with_file, regular_file}
use encrypted_backup_client.System.Files.{
  get_client_info_path, get_private_key_path, get_aes_key_path,
}
use encrypted_backup_client.System.Paths.{
  client_info_is_no_private_key, client_info_is_no_aes_key, private_key_is_no_aes_key,
}
use encrypted_backup_client.Registration.KeyExchange.Answered.{keys_stored}
use encrypted_backup_client.Registration.Flow.Info.{info_content}

-- The three files of a registered client, with the private key and the AES key in Base64.
pub record IsRegistered {P : Platform} (w : World P) (username user_id private_key aes : Text)
    : Type 0 where
  pub info_stored :
      w.files (get_client_info_path w)
      ≡ some (regular_file (info_content username user_id (P.base64_encode private_key)))
  pub private_key_stored :
      w.files (get_private_key_path w) ≡ some (regular_file (P.base64_encode private_key))
  pub aes_key_stored : w.files (get_aes_key_path w) ≡ some (regular_file (P.base64_encode aes))

-- The client may write its files.
pub record IsWritable {P : Platform} (w : World P) : Type 0 where
  pub client_info : w.writable (get_client_info_path w) ≡ true
  pub private_key : w.writable (get_private_key_path w) ≡ true
  pub aes_key : w.writable (get_aes_key_path w) ≡ true

info_content-append : (u id rest : Text) → info_content u id [] ++ rest ≡ info_content u id rest
info_content-append u id rest =
    append_assoc u (10 ∷ (id ++ (10 ∷ []))) rest
    ∙ ap (λ (s : Text). u ++ (10 ∷ s)) (append_assoc id (10 ∷ []) rest)

module _ {P : Platform} (w : World P) (u id encoded : Text) where
  -- The key is appended to the stored information, and stands in its own file.
  pub keys_stored-info :
      w.files (get_client_info_path w) ≡ some (regular_file (info_content u id []))
      → (keys_stored w encoded).files (get_client_info_path w)
        ≡ some (regular_file (info_content u id encoded))
  keys_stored-info stored =
      rw
        (
          client_info_is_no_private_key w.current_path,
          text_eq_refl (get_client_info_path w),
          stored,
          info_content-append u id encoded,
        )
        refl

  pub keys_stored-private_key :
      (keys_stored w encoded).files (get_private_key_path w) ≡ some (regular_file encoded)
  keys_stored-private_key = rw (text_eq_refl (get_private_key_path w)) refl

-- The AES key's file does not touch the other two.
pub with_aes_key-IsRegistered :
    {P : Platform} (w t : World P) (u id private_key aes : Text)
    → w.files (get_client_info_path w)
      ≡ some (regular_file (info_content u id (P.base64_encode private_key)))
    → w.files (get_private_key_path w) ≡ some (regular_file (P.base64_encode private_key))
    → t.current_path ≡ w.current_path
    → t.files ≡ with_file w.files (get_aes_key_path w) (some (regular_file (P.base64_encode aes)))
    → IsRegistered t u id private_key aes
with_aes_key-IsRegistered w t u id private_key aes info private here same = record {
  info_stored = rw (here, same, client_info_is_no_aes_key w.current_path) info;
  private_key_stored = rw (here, same, private_key_is_no_aes_key w.current_path) private;
  aes_key_stored = rw (here, same, text_eq_refl (get_aes_key_path w)) refl;
}
