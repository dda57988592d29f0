-- ===== src/Trace/Backup.antt =====
-- Verifying uploads and backing up a list of files (src/crypto/FileAuthentication.cpp) through the
-- steps of the client.
use encrypted_backup_client.Base.{
  ℕ, suc, zero, ◌+◌, ◌<◌, ◌≡◌, ◌==◌, refl, arith, not, List, [], ◌∷◌, Text, Result, ok, err,
  client_exception, user_cancelled, invalid_argument, runtime_error, length_error, out_of_range,
  system_error, Error, traced_exception, foreign_error, undefined_read, out_of_fuel,
}
use encrypted_backup_client.Utils.Validation.{is_valid_filename}
use encrypted_backup_client.Protocol.RequestCode
use encrypted_backup_client.System.Platform.{Platform}
use encrypted_backup_client.System.World.{World, join_path, print, client_error}
use encrypted_backup_client.Crypto.Upload.{Auth, on_world}
use encrypted_backup_client.Crypto.Backup.{
  accept_upload, check_upload, accept_ack, check_ack, compare_upload, verify_upload_crc_response,
  send_crc_status_request, process_srv_ack_response, finish_upload, give_up, attempt, backup_loop,
  backup_file, handle_client, backup_one, backup_files, crc_trials_count,
}
use encrypted_backup_client.Trace.Steps.{IsRequestCode, here, printed, one_step}
use encrypted_backup_client.Trace.Rules.{
  IsReal, ok-IsReal, result_of, Runs, RunsAuth, Runs-bind, Runs-lift, Runs-step, RunsAuth-bind,
  RunsAuth-lift, RunsAuth-keep_auth,
}
use encrypted_backup_client.Trace.Results.{get_user_id-IsReal, set_user_id-IsReal}
use encrypted_backup_client.Trace.Credentials.{load_user_id-Runs, exists-Runs}
use encrypted_backup_client.Trace.Requests.{
  set_user_id-IsClient, crc_status_request-IsRequest, crc_status_request-coded,
}
use encrypted_backup_client.Trace.Communication.{receive_response-Runs}
use encrypted_backup_client.Trace.Session.{
  Phase, fresh, registering, serving, left, Moves, IsServing, Session, forgets, quiet,
}
use encrypted_backup_client.Trace.Talks.{
  TalksWorld, TalksAuth, Talks-bind, Talks-still, Talks-Runs, Talks-RunsAuth, Talks-keep_auth,
  Talks-branch, Talks-if, send_request-Talks,
}
use encrypted_backup_client.Trace.Upload.{send_encrypted_file_request-Talks}

accept_upload-IsReal : (code : ℕ) → IsReal (accept_upload code)
unfolding accept_upload
accept_upload-IsReal code = λ e. ground arith

check_upload-IsReal : (a b : Text) (code : ℕ) → IsReal (check_upload a b code)
unfolding check_upload
check_upload-IsReal a b code = λ e. ground arith

accept_ack-IsReal : (code : ℕ) → IsReal (accept_ack code)
unfolding accept_ack
accept_ack-IsReal code = λ e. ground arith

check_ack-IsReal : (a b : Text) (code : ℕ) → IsReal (check_ack a b code)
unfolding check_ack
check_ack-IsReal a b code = λ e. ground arith

module _ (P : Platform) where
  verify_upload_crc_response-Runs :
      (file_data : Text) (s : Auth P) → RunsAuth s (verify_upload_crc_response P file_data s)
  unfolding verify_upload_crc_response compare_upload
  verify_upload_crc_response-Runs file_data s =
      RunsAuth-bind (RunsAuth-keep_auth s (receive_response-Runs P s.world)) (λ r t _.
        RunsAuth-bind (RunsAuth-lift (accept_upload-IsReal r.header.response_code)) (λ _ t _.
          RunsAuth-bind (RunsAuth-keep_auth t (load_user_id-Runs P _ t.world)) (λ user_id u _.
            RunsAuth-bind (RunsAuth-lift (get_user_id-IsReal r.payload)) (λ response_id u _.
              RunsAuth-bind
                (RunsAuth-lift (check_upload-IsReal user_id response_id r.header.response_code))
                (λ _ u _. record { real = ok-IsReal; reached = here })))))

  send_crc_status_request-Talks :
      (file_name : Text) (op_code k n : ℕ) (w : World P)
      → IsRequestCode op_code
      → Moves (serving k) op_code (serving n)
      → TalksWorld (serving k) (serving n) w (send_crc_status_request P file_name op_code w)
  unfolding send_crc_status_request
  send_crc_status_request-Talks file_name op_code k n w code m =
      Talks-bind (Talks-Runs (load_user_id-Runs P _ w)) (λ user_id v _.
        Talks-bind (Talks-Runs (Runs-lift (set_user_id-IsReal user_id _))) (λ header u set.
          send_request-Talks P (serving k) (serving n) op_code _ u
            (crc_status_request-IsRequest P.host.order header file_name op_code
              (set_user_id-IsClient user_id header (result_of set)) code)
            (crc_status_request-coded header file_name op_code) m (λ serves. serves)))

  process_srv_ack_response-Runs : (w : World P) → Runs w (process_srv_ack_response P w)
  unfolding process_srv_ack_response
  process_srv_ack_response-Runs w = Runs-bind (receive_response-Runs P w) (λ r v _.
      Runs-bind (load_user_id-Runs P _ v) (λ user_id u _.
        Runs-bind (Runs-lift (accept_ack-IsReal r.header.response_code)) (λ _ u _.
          Runs-bind (Runs-lift (get_user_id-IsReal r.payload)) (λ response_id u _.
            Runs-lift (check_ack-IsReal user_id response_id r.header.response_code)))))

  finish_upload-Talks :
      (file_name : Text) (k : ℕ) (w : World P)
      → TalksWorld (serving k) (serving 0) w (finish_upload P file_name w)
  unfolding finish_upload
  finish_upload-Talks file_name k w =
      Talks-bind
        (send_crc_status_request-Talks file_name RequestCode.crc_success k 0 w
          IsRequestCode.crc_success Moves.confirms)
        (λ _ v _. Talks-Runs (
          Runs-bind (process_srv_ack_response-Runs v)
            (λ _ u _. Runs-step ok-IsReal (printed _ refl))))

  give_up-Talks :
      (file_name : Text) (k : ℕ) (w : World P)
      → suc k ≡ crc_trials_count
      → TalksWorld (serving k) (serving 0) w (give_up P file_name w)
  unfolding give_up
  give_up-Talks file_name k w last =
      Talks-bind
        (send_crc_status_request-Talks file_name RequestCode.crc_failure k 0 w
          IsRequestCode.crc_failure (Moves.gives_up (omega (arith, last))))
        (λ _ v _. Talks-Runs (
          Runs-bind (process_srv_ack_response-Runs v)
            (λ _ u _. Runs-step ok-IsReal (printed _ refl))))

  attempt-Talks :
      (file_path file_name : Text) (k : ℕ) (s : Auth P)
      → TalksAuth (serving k) (serving k) s (attempt P file_path file_name s)
  unfolding attempt
  attempt-Talks file_path file_name k s =
      Talks-bind (send_encrypted_file_request-Talks P file_path file_name k s)
        (λ file_data t _. Talks-RunsAuth (verify_upload_crc_response-Runs file_data t))

  -- Three passes are enough: the count of failures reaches its limit before the fuel ends.
  backup_loop-Talks :
      (fuel : ℕ) (file_path file_name : Text) (failures : ℕ) (s : Auth P)
      → failures + fuel ≡ crc_trials_count
      → 0 < fuel
      → TalksAuth
          (serving failures)
          (serving 0)
          s
          (backup_loop P fuel file_path file_name failures s)
  unfolding backup_loop
  backup_loop-Talks zero file_path file_name failures s e h = absurd (omega arith)
  backup_loop-Talks (suc fuel) file_path file_name failures s e h =
      Talks-bind (attempt-Talks file_path file_name failures s) (λ verified t _.
        Talks-branch verified _ _
          (λ _. Talks-keep_auth t (finish_upload-Talks file_name failures t.world))
          (λ _.
            Talks-branch (suc failures == crc_trials_count) _ _
              (λ last. Talks-keep_auth t (give_up-Talks file_name failures t.world (ground arith)))
              (λ more.
                Talks-bind
                  (Talks-keep_auth t (
                    send_crc_status_request-Talks file_name RequestCode.crc_error failures
                      (suc failures) t.world IsRequestCode.crc_error Moves.rejects))
                  (λ _ u _.
                    backup_loop-Talks fuel file_path file_name (suc failures) u (omega arith)
                      (ground arith)))))

  -- The phase for the next file.
  cleared :
      {p : Phase} {w : World P} (q : Phase) {v : World P}
      → Session p w q v
      → IsServing q
      → Session p w (serving 0) v
  cleared fresh h serves = absurd serves
  cleared registering h serves = absurd serves
  cleared (serving k) h serves = forgets h
  cleared left h serves = absurd serves

  -- A message that ends the file's backup.
  client_error-Talks :
      (what : Text) {e : Error} (s t : Auth P)
      → TalksAuth {A = Unit {0}} (serving 0) (serving 0) s (err e, t)
      → TalksAuth (serving 0) (serving 0) s (on_world (print (client_error what)) t)
  client_error-Talks what s t h = record {
    real = ok-IsReal;
    phase = serving 0;
    session = quiet (cleared h.phase h.session (h.served tt)) (printed _ refl);
    after = λ _. refl;
    served = λ serves. serves;
  }

  handle_client-Talks :
      (s : Auth P) (x : Result (Unit {0}) × Auth P)
      → TalksAuth (serving 0) (serving 0) s x
      → TalksAuth (serving 0) (serving 0) s (handle_client P x)
  handle_client-Talks s (ok a, t) h = h
  handle_client-Talks s (err (client_exception what), t) h = client_error-Talks what s t h
  handle_client-Talks s (err (user_cancelled what), t) h = client_error-Talks what s t h
  handle_client-Talks s (err (invalid_argument what), t) h = h
  handle_client-Talks s (err (runtime_error what), t) h = h
  handle_client-Talks s (err (length_error what), t) h = h
  handle_client-Talks s (err (out_of_range what), t) h = h
  handle_client-Talks s (err (system_error what), t) h = h
  handle_client-Talks s (err (traced_exception what), t) h = h
  handle_client-Talks s (err foreign_error, t) h = h
  handle_client-Talks s (err undefined_read, t) h = h
  handle_client-Talks s (err out_of_fuel, t) h = h

  backup_one-Talks :
      (dir_name file_name : Text) (s : Auth P)
      → TalksAuth (serving 0) (serving 0) s (backup_one P dir_name file_name s)
  unfolding backup_one backup_file
  backup_one-Talks dir_name file_name s =
      Talks-if (not (is_valid_filename file_name))
        (λ _. Talks-still ok-IsReal (one_step (printed _ refl)))
        (λ _.
          Talks-bind
            (Talks-keep_auth s (Talks-Runs (exists-Runs P (join_path dir_name file_name) s.world)))
            (λ found t _.
              Talks-if (not found) (λ _. Talks-still ok-IsReal (one_step (printed _ refl)))
                (λ _. handle_client-Talks t _ (
                  backup_loop-Talks crc_trials_count (join_path dir_name file_name) file_name 0 t
                    refl (omega arith)))))

  pub backup_files-Talks :
      (dir_name : Text) (files : List Text) (s : Auth P)
      → TalksAuth (serving 0) (serving 0) s (backup_files P dir_name files s)
  unfolding backup_files
  backup_files-Talks dir_name [] s = Talks-RunsAuth (RunsAuth-lift ok-IsReal)
  backup_files-Talks dir_name (file_name ∷ files) s =
      Talks-bind (backup_one-Talks dir_name file_name s)
        (λ _ t _. backup_files-Talks dir_name files t)
