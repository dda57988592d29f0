-- ===== src/Crypto/Backup/Files.antt =====
-- The backup of a list of files (FileAuthentication::backup_files of
-- src/crypto/FileAuthentication.cpp): what stops it and what does not.
use encrypted_backup_client.Base.{
  true, false, ◌≢◌, Bool, Bool-cases, Option-cases, not, if◌then◌else◌, inl, inr, List, [], ◌∷◌,
  Text, Result, ok, err, client_exception, user_cancelled,
}
use encrypted_backup_client.Utils.Validation.{is_valid_filename}
use encrypted_backup_client.System.State.{M, continue}
use encrypted_backup_client.System.Platform.{Platform}
use encrypted_backup_client.System.World.{file_not_found, exists, resolve, print, join_path}
use encrypted_backup_client.Crypto.Upload.{Auth, on_world}
use encrypted_backup_client.Crypto.Backup.{backup_file, backup_one, backup_files, handle_client}

-- No `ClientException`, and none of the class derived from it.
abbrev pub IsNoClientException : {A : Type 0} → Result A → Type 0
IsNoClientException r =
    (what : Text) → (r ≢ err (client_exception what)) × (r ≢ err (user_cancelled what))

module _ (P : Platform) where
  handle_client-IsNoClientException :
      (m : Result (Unit {0}) × Auth P) → IsNoClientException (handle_client P m).0
  handle_client-IsNoClientException (ok a, s) what = (λ e. cc, λ e. cc)
  handle_client-IsNoClientException (err x, s) what =
      elim x
        as (λ k.
          ((handle_client P (err k, s)).0 ≢ err (client_exception what))
          × ((handle_client P (err k, s)).0 ≢ err (user_cancelled what))) [
            | client_exception y ↦ (λ e. cc, λ e. cc)
            | user_cancelled y ↦ (λ e. cc, λ e. cc)
            | _ ↦ (λ e. cc, λ e. cc)
          ]

  onward-IsNoClientException :
      {A : Type 0} (m : Result A × Auth P) (f : A → M (Auth P) (Unit {0}))
      → IsNoClientException m.0
      → ((a : A) (t : Auth P) → IsNoClientException (f a t).0)
      → IsNoClientException (continue m f).0
  onward-IsNoClientException (ok a, s) f h k what = k a s what
  onward-IsNoClientException (err x, s) f h k what = (λ e. (h what).0 (cc), λ e. (h what).1 (cc))

  tested-IsNoClientException :
      (dir_name file_name : Text) (found : Bool) (t : Auth P)
      → IsNoClientException
          (if not found
            then on_world (print (file_not_found file_name)) t
            else handle_client P (backup_file P (join_path dir_name file_name) file_name t)).0
  tested-IsNoClientException dir_name file_name false t what = (λ e. cc, λ e. cc)
  tested-IsNoClientException dir_name file_name true t what =
      handle_client-IsNoClientException (backup_file P (join_path dir_name file_name) file_name t)
        what

  exists-IsNoClientException :
      (name : Text) (s : Auth P) → IsNoClientException (on_world (exists name) s).0
  unfolding exists
  exists-IsNoClientException name s what =
      elim (Option-cases (s.world.files (resolve s.world name))) [
        | inr (file, found) ↦ rw (found, exists) (λ e. cc, λ e. cc)
        | inl missing ↦ elim (Bool-cases (s.world.status_fails (resolve s.world name))) [
          | inl fails ↦ rw (missing, fails, exists) (λ e. cc, λ e. cc)
          | inr known ↦ rw (missing, known, exists) (λ e. cc, λ e. cc)
        ]
      ]

  backup_one-IsNoClientException :
      (dir_name file_name : Text) (s : Auth P)
      → IsNoClientException (backup_one P dir_name file_name s).0
  unfolding backup_one
  backup_one-IsNoClientException dir_name file_name s what =
      elim (Bool-cases (is_valid_filename file_name)) [
        | inr invalid ↦ rw (invalid) (λ e. cc, λ e. cc)
        | inl valid ↦ rw valid (
            onward-IsNoClientException (on_world (exists (join_path dir_name file_name)) s) _
              (exists-IsNoClientException (join_path dir_name file_name) s)
              (λ found t. tested-IsNoClientException dir_name file_name found t) what)
      ]

  -- Whatever the files and their names are, the backup of a list ends without an exception or with
  -- one that is no `ClientException`.
  pub backup_files-IsNoClientException :
      (dir_name : Text) (files : List Text) (s : Auth P)
      → IsNoClientException (backup_files P dir_name files s).0
  unfolding backup_files
  backup_files-IsNoClientException dir_name [] s what = (λ e. cc, λ e. cc)
  backup_files-IsNoClientException dir_name (file_name ∷ files) s what =
      onward-IsNoClientException (backup_one P dir_name file_name s)
        (λ _. backup_files P dir_name files) (backup_one-IsNoClientException dir_name file_name s)
        (λ _ t. backup_files-IsNoClientException dir_name files t) what
