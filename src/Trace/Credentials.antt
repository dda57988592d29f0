-- ===== src/Trace/Credentials.antt =====
-- The files of the client (src/registration/client_credentials.cpp) through the steps of the client.
use encrypted_backup_client.Base.{List, [], ◌∷◌, Text, Option-cases, none, inl, inr, refl}
use encrypted_backup_client.System.Platform.{Platform}
use encrypted_backup_client.System.World.{World, exists, resolve}
use encrypted_backup_client.System.Files.{open_file, write_file, append_file, remove_file}
use encrypted_backup_client.Registration.Credentials.{
  open_input_file, read_required_line, load_username, load_user_id, load_private_key, load_aes_key,
  non_empty, save_private_key,
}
use encrypted_backup_client.Trace.Steps.{IsOwn, stored}
use encrypted_backup_client.Trace.Rules.{
  ok-IsReal, IsReal, Runs, Runs-bind, Runs-lift, Runs-if, Runs-step,
}

module _ (P : Platform) where
  pub open_file-Runs : (path name : Text) (w : World P) → Runs w (open_file path name w)
  unfolding open_file
  open_file-Runs path name w = elim (Option-cases (w.files (resolve w path))) [
    | inl missing ↦ rw missing (Runs-lift (λ e. cc))
    | inr (file, found) ↦ rw found (Runs-lift ok-IsReal)
  ]

  pub write_file-Runs :
      (path name content : Text) (w : World P)
      → IsOwn w.current_path path
      → Runs w (write_file path name content w)
  unfolding write_file
  write_file-Runs path name content w own =
      Runs-if (w.writable path) (λ _. Runs-step ok-IsReal (stored path _ own refl))
        (λ _. Runs-lift (λ e. cc))

  pub remove_file-Runs :
      (path : Text) (w : World P) → IsOwn w.current_path path → Runs w (remove_file path w)
  unfolding remove_file
  remove_file-Runs path w own =
      Runs-if (w.removable path) (λ _. Runs-step ok-IsReal (stored path none own refl))
        (λ _. Runs-lift (λ e. cc))

  pub exists-Runs : (name : Text) (w : World P) → Runs w (exists name w)
  unfolding exists
  exists-Runs name w = elim (Option-cases (w.files (resolve w name))) [
    | inr (file, found) ↦ rw (found, exists) (Runs-lift ok-IsReal)
    | inl missing ↦
        rw (missing, exists)
          (Runs-if (w.status_fails (resolve w name)) (λ _. Runs-lift (λ e. cc))
            (λ _. Runs-lift ok-IsReal))
  ]

  pub append_file-Runs :
      (path name content : Text) (w : World P)
      → IsOwn w.current_path path
      → Runs w (append_file path name content w)
  unfolding append_file
  append_file-Runs path name content w own = write_file-Runs path name _ w own

  open_input_file-Runs : (file_name : Text) (w : World P) → Runs w (open_input_file P file_name w)
  unfolding open_input_file
  open_input_file-Runs file_name w =
      Runs-bind (open_file-Runs file_name file_name w) (λ file v _. Runs-lift ok-IsReal)

  read_required_line-IsReal :
      (ls : List Text) (file_name message : Text)
      → IsReal (read_required_line P ls file_name message)
  unfolding read_required_line
  read_required_line-IsReal [] file_name message = λ e. cc
  read_required_line-IsReal (l ∷ ls) file_name message = λ e. cc

  non_empty-IsReal : (t message : Text) → IsReal (non_empty P t message)
  non_empty-IsReal [] message = λ e. cc
  non_empty-IsReal (c ∷ cs) message = λ e. cc

  pub load_username-Runs : (file_name : Text) (w : World P) → Runs w (load_username P file_name w)
  unfolding load_username
  load_username-Runs file_name w = Runs-bind (open_input_file-Runs file_name w) (λ ls v _.
      Runs-bind (Runs-lift (read_required_line-IsReal ls _ _)) (λ l u _. Runs-lift ok-IsReal))

  pub load_user_id-Runs : (file_name : Text) (w : World P) → Runs w (load_user_id P file_name w)
  unfolding load_user_id
  load_user_id-Runs file_name w = Runs-bind (open_input_file-Runs file_name w) (λ ls v _.
      Runs-bind (Runs-lift (read_required_line-IsReal ls _ _)) (λ l u _.
        Runs-bind (Runs-lift (read_required_line-IsReal _ _ _)) (λ l u _. Runs-lift ok-IsReal)))

  pub load_private_key-Runs :
      (file_name : Text) (w : World P) → Runs w (load_private_key P file_name w)
  unfolding load_private_key
  load_private_key-Runs file_name w = Runs-bind (open_input_file-Runs file_name w) (λ ls v _.
      Runs-bind (Runs-lift (read_required_line-IsReal ls _ _)) (λ l u _.
        Runs-bind (Runs-lift (read_required_line-IsReal _ _ _))
          (λ l u _. Runs-lift (non_empty-IsReal _ _))))

  pub load_aes_key-Runs : (file_name : Text) (w : World P) → Runs w (load_aes_key P file_name w)
  unfolding load_aes_key
  load_aes_key-Runs file_name w = Runs-bind (open_input_file-Runs file_name w) (λ ls v _.
      Runs-bind (Runs-lift (read_required_line-IsReal ls _ _))
        (λ l u _. Runs-lift (non_empty-IsReal _ _)))

  pub save_private_key-Runs :
      (private_key : Text) (w : World P) → Runs w (save_private_key P private_key w)
  unfolding save_private_key
  save_private_key-Runs key w = write_file-Runs _ _ key w IsOwn.private_key
