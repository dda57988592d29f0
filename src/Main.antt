-- ===== src/Main.antt =====
-- The entry point: src/main.cpp.
use encrypted_backup_client.Base.{
  ℕ, Option, none, some, if◌then◌else◌, Result, ok, err, Error, client_exception, user_cancelled,
  undefined_read, out_of_fuel,
}
use encrypted_backup_client.System.State.{M, ◌>>=◌, ◌>>◌, return, throw}
use encrypted_backup_client.System.Platform.{Platform}
use encrypted_backup_client.System.World.{
  World, Line, farewell, refusal, something_wrong, exists, print,
}
use encrypted_backup_client.System.Files.{aes_key_file, get_aes_key_path, remove_file}
use encrypted_backup_client.Utils.Logger.{log_exception}
use encrypted_backup_client.Core.Client.{run, disconnect}

-- The message of the `catch` clause that takes an exception. What is no exception is not caught.
unfoldable pub failure_message : Error → Option Line
failure_message (user_cancelled what) = some (farewell what)
failure_message (client_exception what) = some (refusal what)
failure_message undefined_read = none
failure_message out_of_fuel = none
failure_message e = some something_wrong

module _ (P : Platform) where
  unfoldable pub cleanup_temporary_aes_key : M (World P) (Unit {0})
  cleanup_temporary_aes_key = do
    stays ← exists aes_key_file
    (λ w. if stays then remove_file (get_aes_key_path w) w else (ok tt, w))

  unfoldable pub handle_startup_failure : Error → Line → M (World P) (Unit {0})
  handle_startup_failure e message = do log_exception P e; disconnect P; print message

  abbrev pub handled : Error → Option Line → M (World P) (Unit {0})
  handled e none = throw e
  handled e (some message) = handle_startup_failure e message

  -- The `try` block: an exception that a handler throws is not caught again.
  abbrev pub caught : Result (Unit {0}) × World P → Result (Unit {0}) × World P
  caught (ok a, w) = (ok a, w)
  caught (err e, w) = handled e (failure_message e) w

  unfoldable pub main : M (World P) ℕ
  main = do (λ w. caught (run P w)); cleanup_temporary_aes_key; return 0
