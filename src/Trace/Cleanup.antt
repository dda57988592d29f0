-- ===== src/Trace/Cleanup.antt =====
-- What becomes of the AES key file at the end of a run (src/main.cpp).
use encrypted_backup_client.Base.{
  ℕ, ◌≡◌, refl, sym, ap, ◌∙◌, inl, inr, true, false, Bool, Bool-cases, none, some, Text,
  text_eq_refl, Result, ok, err, Error,
}
use encrypted_backup_client.Protocol.Request.{serialize}
use encrypted_backup_client.System.Platform.{Platform}
use encrypted_backup_client.System.State.{M, return, continue}
use encrypted_backup_client.System.World.{World, Line}
use encrypted_backup_client.System.Files.{get_aes_key_path, remove_file}
use encrypted_backup_client.System.Paths.{aes_key_is_no_log}
use encrypted_backup_client.Core.Communication.{after_write, send_request}
use encrypted_backup_client.Core.Client.{after_close, disconnect, disconnect_request, run}
use encrypted_backup_client.Utils.Logger.{reported, log_exception, create_timestamp, get_log_path}
use encrypted_backup_client.Main.{failure_message, handle_startup_failure, handled, caught, main}
use encrypted_backup_client.Trace.Files.{other_file}
use encrypted_backup_client.Trace.Exit.{finish, finish-cases}

module _ (P : Platform) where
  -- A run that came to the end leaves no key file, if it returns.
  abbrev IsClean : ℕ → Result ℕ × World P → Type 0
  IsClean n x = x.0 ≡ ok n → x.1.files (get_aes_key_path x.1) ≡ none

  remove-IsClean :
      (n : ℕ) (v : World P)
      → IsClean n (continue (remove_file (get_aes_key_path v) v) (λ _. return 0))
  unfolding remove_file
  remove-IsClean n v = elim (Bool-cases (v.removable (get_aes_key_path v))) [
    | inl removes ↦ rw (removes, remove_file, text_eq_refl (get_aes_key_path v)) (λ _. refl)
    | inr refused ↦ rw (refused, remove_file) (λ e. cc)
  ]

  finish-IsClean : (n : ℕ) (v : World P) → IsClean n (finish P v)
  finish-IsClean n v =
      finish-cases P (IsClean n) v (λ missing _. missing) (λ e. cc) (remove-IsClean n v)

  -- A run that returns leaves no AES key file.
  pub main_removes_aes_key :
      (w : World P) (n : ℕ)
      → (main P w).0 ≡ ok n
      → (main P w).1.files (get_aes_key_path (main P w).1) ≡ none
  unfolding main
  main_removes_aes_key w n h = removed (caught P (run P w)) h
    where
      removed :
          (x : Result (Unit {0}) × World P)
          → (continue x (λ _. finish P)).0 ≡ ok n
          → (continue x (λ _. finish P)).1.files (get_aes_key_path (continue x (λ _. finish P)).1)
            ≡ none
      removed (ok a, v) e = finish-IsClean n v e
      removed (err d, v) e = cc

  after_write-files :
      (x : Bool × P.Socket) (w : World P) (f : Unit {0} → M (World P) (Unit {0}))
      → ((v : World P) → (f tt v).1.files ≡ v.files)
      → (continue (after_write P x w) f).1.files ≡ w.files
  after_write-files (true, s) w f h = h _
  after_write-files (false, s) w f h = refl

  after_close-files : (x : Bool × P.Socket) (w : World P) → (after_close P x w).1.files ≡ w.files
  after_close-files (true, s) w = refl
  after_close-files (false, s) w = refl

  disconnect-files : (w : World P) → (disconnect P w).1.files ≡ w.files
  unfolding disconnect send_request
  disconnect-files w = elim (Bool-cases (P.is_open w.socket)) [
    | inl open_socket ↦
        rw (open_socket, disconnect)
          (after_write-files (P.asio_write (serialize P.host.order disconnect_request) w.socket) w
            (λ _ u. after_close P (P.close u.socket) u)
            (λ v. after_close-files (P.close v.socket) v))
    | inr closed_socket ↦ rw (closed_socket, disconnect) refl
  ]

  reported-files : (r : Result Text) (w : World P) → (reported P r w).1.files ≡ w.files
  reported-files (ok t) w = refl
  reported-files (err e) w = refl

  log_exception-files :
      (e : Error) (w : World P)
      → (log_exception P e w).1.files (get_aes_key_path w) ≡ w.files (get_aes_key_path w)
  unfolding log_exception
  log_exception-files e w = elim (Bool-cases (w.writable (get_log_path w))) [
    | inl open_log ↦
        rw (open_log, log_exception)
          (ap (λ f. f (get_aes_key_path w)) (reported-files (create_timestamp w.local_time) _)
            ∙ other_file w.files (get_log_path w) (get_aes_key_path w) _
                (aes_key_is_no_log w.current_path))
    | inr closed_log ↦ rw (closed_log, log_exception) refl
  ]

  -- When the disconnect throws while an exception is handled, because its request cannot be written or
  -- the socket cannot be closed, that exception leaves `main`: the cleanup is skipped, and the AES key
  -- file is as the run had left it.
  pub main_keeps_aes_key :
      (w t u v : World P) (e d : Error) (message : Line)
      → run P w ≡ (err e, t)
      → failure_message e ≡ some message
      → log_exception P e t ≡ (ok tt, u)
      → disconnect P u ≡ (err d, v)
      → (main P w ≡ (err d, v)) × (v.files (get_aes_key_path t) ≡ t.files (get_aes_key_path t))
  unfolding main handle_startup_failure
  main_keeps_aes_key w t u v e d message ran handled logged lost = (
    rw (ran, handled, logged, lost) refl,
    ap (λ (x : Result (Unit {0}) × World P). x.1.files (get_aes_key_path t)) (sym lost)
        ∙ ap (λ f. f (get_aes_key_path t)) (disconnect-files u)
        ∙ ap (λ (x : Result (Unit {0}) × World P). x.1.files (get_aes_key_path t)) (sym logged)
        ∙ log_exception-files e t,
  )
