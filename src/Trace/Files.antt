-- ===== src/Trace/Files.antt =====
-- Which files the client touches (all of src/).
use encrypted_backup_client.Base.{◌≡◌, refl, sym, ap, ◌∙◌, false, Option, Text, text_eq}
use encrypted_backup_client.System.Platform.{Platform}
use encrypted_backup_client.System.World.{World, StoredFile, join_path, with_file}
use encrypted_backup_client.System.Files.{cl_info_file, aes_key_file, private_key_file}
use encrypted_backup_client.Utils.Logger.{log_file_name}
use encrypted_backup_client.Main.{main}
use encrypted_backup_client.Trace.Steps.{
  IsOwn, client_info, aes_key, private_key, log, Step, received, connected, closed, drew, printed,
  took, stored,
}
use encrypted_backup_client.Trace.Session.{
  Phase, Session, start, quiet, forgets, wrote, Session-current_path,
}
use encrypted_backup_client.Trace.Client.{main-Ends}

-- A path that is none of the client's own files in its directory.
pub record IsForeign (dir path : Text) : Type 0 where
  pub not_client_info : text_eq path (join_path dir cl_info_file) ≡ false
  pub not_aes_key : text_eq path (join_path dir aes_key_file) ≡ false
  pub not_private_key : text_eq path (join_path dir private_key_file) ≡ false
  pub not_log : text_eq path (join_path dir log_file_name) ≡ false

IsForeign-own :
    {dir path own : Text} → IsForeign dir path → IsOwn dir own → text_eq path own ≡ false
IsForeign-own f client_info = f.not_client_info
IsForeign-own f aes_key = f.not_aes_key
IsForeign-own f private_key = f.not_private_key
IsForeign-own f log = f.not_log

pub other_file :
    (files : Text → Option StoredFile) (own path : Text) (entry : Option StoredFile)
    → text_eq path own ≡ false
    → with_file files own entry path ≡ files path
other_file files own path entry e = rw e refl

module _ {P : Platform} where
  Step-files :
      (path : Text) (w v : World P)
      → IsForeign w.current_path path
      → Step w v
      → v.files path ≡ w.files path
  Step-files path w v f (received n e) = ap (λ (u : World P). u.files path) e
  Step-files path w v f (connected n e) = ap (λ (u : World P). u.files path) e
  Step-files path w v f (closed e) = ap (λ (u : World P). u.files path) e
  Step-files path w v f (drew random e) = ap (λ (u : World P). u.files path) e
  Step-files path w v f (printed line e) = ap (λ (u : World P). u.files path) e
  Step-files path w v f (took input h e) = ap (λ (u : World P). u.files path) e
  Step-files path w v f (stored own entry o e) =
      ap (λ (u : World P). u.files path) e ∙ other_file w.files own path entry (IsForeign-own f o)

  Session-files :
      (path : Text) {p : Phase} {w : World P} {q : Phase} {v : World P}
      → IsForeign w.current_path path
      → Session p w q v
      → v.files path ≡ w.files path
  Session-files path f start = refl
  Session-files path {w = w} f (quiet {u = u} {v = v} s step) =
      Step-files path u v (rw (sym (Session-current_path s)) at f) step ∙ Session-files path f s
  Session-files path f (forgets s) = Session-files path f s
  Session-files path f (wrote s r valid m e) =
      ap (λ (u : World P). u.files path) e ∙ Session-files path f s

-- Whatever the server sends, the user types and the files hold, the client as a whole changes no
-- file but me.info, aes.key, private.key and client.log in its directory, and it stays in that
-- directory.
pub main_keeps_files :
    (P : Platform) (w : World P) (path : Text)
    → IsForeign w.current_path path
    → ((main P w).1.files path ≡ w.files path) × ((main P w).1.current_path ≡ w.current_path)
main_keeps_files P w path f =
    let session = (main-Ends P w).session in
    (Session-files path f session, Session-current_path session)
