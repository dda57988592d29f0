-- ===== src/Trace/Exit.antt =====
-- How a run of the client ends (src/main.cpp), and what becomes of the AES key file.
use encrypted_backup_client.Base.{
  ℕ, ◌≡◌, ◌≢◌, none, inl, inr, Bool-cases, Option-cases, text, Result, ok, err, Error, system_error,
  foreign_error, undefined_read, out_of_fuel,
}
use encrypted_backup_client.Protocol.Request.{Request}
use encrypted_backup_client.System.Platform.{Platform}
use encrypted_backup_client.System.State.{M, return, ◌>>◌, continue}
use encrypted_backup_client.System.World.{World, exists, resolve}
use encrypted_backup_client.System.Files.{aes_key_file, get_aes_key_path, remove_file}
use encrypted_backup_client.Main.{cleanup_temporary_aes_key, main}
use encrypted_backup_client.Trace.Client.{main-Ends}

-- The fuel of the model is enough on every run of the client, whatever the server, the user and the
-- libraries do: every loop of the code ends.
pub main_never_out_of_fuel : (P : Platform) (w : World P) → (main P w).0 ≢ err out_of_fuel
main_never_out_of_fuel P w = (main-Ends P w).real

abbrev send_failed : Error
send_failed = system_error (text "Failed to send request to the server")

-- How the program can end: it returns 0, or the exception of a failed write leaves `main`, or one of
-- Boost.Asio or the file system does, or a read outside an object came before.
pub data Exit : Result ℕ → Type 0 where
  returned : Exit (ok 0)
  send_escaped : Exit (err send_failed)
  library_escaped : Exit (err foreign_error)
  undefined : Exit (err undefined_read)

-- The same of a part before the cleanup.
data Left {P : Platform} : Result (Unit {0}) × World P → Type 0 where
  done : {v : World P} → Left (ok tt, v)
  failed : {v : World P} → Left (err send_failed, v)
  thrown : {v : World P} → Left (err foreign_error, v)
  unknown : {v : World P} → Left (err undefined_read, v)

module _ (P : Platform) where
  -- The cleanup and the result, behind a part that ended.
  abbrev pub finish : M (World P) ℕ
  finish = cleanup_temporary_aes_key P >> return 0

  -- The ways of the end: there is nothing to remove, or no telling, or the file is to be removed.
  pub finish-cases :
      (Q : Result ℕ × World P → Type 0) (v : World P)
      → (v.files (get_aes_key_path v) ≡ none → Q (ok 0, v))
      → Q (err foreign_error, v)
      → Q (continue (remove_file (get_aes_key_path v) v) (λ _. return 0))
      → Q (finish v)
  unfolding cleanup_temporary_aes_key exists
  finish-cases Q v absent unknown_status removal =
      elim (Option-cases (v.files (resolve v aes_key_file))) [
        | inr (file, found) ↦ rw (found, cleanup_temporary_aes_key, exists) removal
        | inl missing ↦ elim (Bool-cases (v.status_fails (resolve v aes_key_file))) [
          | inl fails ↦ rw (missing, fails, cleanup_temporary_aes_key, exists) unknown_status
          | inr known ↦ elim (Bool-cases (v.is_directory (resolve v aes_key_file))) [
            | inl stays ↦ rw (missing, known, stays, cleanup_temporary_aes_key, exists) removal
            | inr gone ↦
                rw (missing, known, gone, cleanup_temporary_aes_key, exists) (absent missing)
          ]
        ]
      ]
