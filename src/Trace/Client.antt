-- ===== src/Trace/Client.antt =====
-- The workflow and the entry point (src/core/ClientHandler.cpp, src/utils/logger.cpp, src/main.cpp)
-- through the steps of the client.
use mathlib.Core.Path.{subst}
use encrypted_backup_client.Base.{
  Bool, true, sym, ℕ, to_string, refl, arith, Option, none, some, false, Text, ℤ, Result, ok, err,
  Error,
}
use encrypted_backup_client.System.Platform.{Platform}
use encrypted_backup_client.System.World.{World, Line}
use encrypted_backup_client.System.Files.{aes_key_file, cl_info_file}
use encrypted_backup_client.Config.Server.{checked_port, port_of, load_server_address}
use encrypted_backup_client.Core.Communication.{after_write, send_request}
use encrypted_backup_client.Core.Client
use encrypted_backup_client.Core.Client.{
  resolved, connect, handle_registration, backup_files, disconnect, disconnect_request, run,
}
use encrypted_backup_client.Utils.Logger.{reported, log_exception, get_log_path}
use encrypted_backup_client.Main.{
  failure_message, cleanup_temporary_aes_key, handle_startup_failure, handled, caught, main,
}
use encrypted_backup_client.Trace.Steps.{Step, IsOwn, stored, closed, printed, one_step}
use encrypted_backup_client.Trace.Rules.{
  IsReal, ok-IsReal, IsReal-or_throw, Runs, Runs-bind, Runs-lift, Runs-if, Runs-step, Runs-after,
}
use encrypted_backup_client.Trace.Credentials.{open_file-Runs, exists-Runs, remove_file-Runs}
use encrypted_backup_client.Trace.Requests.{disconnect_request-IsRequest, disconnect_request-coded}
use encrypted_backup_client.Trace.Session.{
  Phase, fresh, serving, left, Moves, Session, start, wrote,
}
use encrypted_backup_client.Trace.Talks.{TalksWorld, Talks-bind, Talks-branch, Talks-Runs}
use encrypted_backup_client.Trace.Ends.{
  Ends, Ends-Runs, Ends-behind, Ends-bind, Ends-after, Ends-if,
}
use encrypted_backup_client.Trace.Registration.{
  client_registration-Talks, client_re_registration-Talks,
}
use encrypted_backup_client.Trace.Selection.{
  prompt_backup_directory-Runs, prompt_files_to_backup-Runs,
}
use encrypted_backup_client.Trace.Backup.{backup_files-Talks}

port_of-IsReal : (port : ℤ) → IsReal (port_of port)
unfolding port_of checked_port
port_of-IsReal port = λ e. ground arith

module _ (P : Platform) where
  load_server_address-Runs :
      (file_name : Text) (w : World P) → Runs w (load_server_address P file_name w)
  unfolding load_server_address
  load_server_address-Runs file_name w =
      Runs-bind (open_file-Runs P file_name file_name w) (λ file v _.
        Runs-bind (Runs-lift (IsReal-or_throw (P.parse_json file.content))) (λ config v _.
          Runs-bind (Runs-lift (IsReal-or_throw (P.at config _))) (λ server v _.
            Runs-bind (Runs-lift (IsReal-or_throw (P.at server _))) (λ host v _.
              Runs-bind (Runs-lift (IsReal-or_throw (P.as_string host))) (λ ip v _.
                Runs-bind (Runs-lift (IsReal-or_throw (P.at server _))) (λ value v _.
                  Runs-bind (Runs-lift (IsReal-or_throw (P.as_int64 value))) (λ port v _.
                    Runs-bind (Runs-lift (port_of-IsReal port))
                      (λ p v _. Runs-lift ok-IsReal))))))))

  resolved-IsReal : (e : Option P.Endpoints) → IsReal (resolved P e)
  resolved-IsReal none = λ e. cc
  resolved-IsReal (some e) = λ e. cc

  connected-Runs :
      (ip port : Text) (x : Option (Text × ℕ) × P.Socket) (w : World P)
      → Step w (record w { socket = x.1 })
      → Runs w (Client.connected P ip port x w)
  connected-Runs ip port (none, s) w step = Runs-step (λ e. cc) step
  connected-Runs ip port (some e, s) w step = Runs-step ok-IsReal step

  connect-Runs : (w : World P) → Runs w (connect P w)
  unfolding connect
  connect-Runs w = Runs-bind (load_server_address-Runs _ w) (λ address v _.
      Runs-bind (Runs-lift (resolved-IsReal (P.resolve_address address.0 (to_string address.1))))
        (λ endpoints v _.
          Runs-bind
            (connected-Runs address.0 (to_string address.1) (P.connect endpoints v.socket) v
              (Step.connected endpoints refl))
            (λ endpoint u _. Runs-step ok-IsReal (printed _ refl))))

  handle_registration-Talks :
      (w : World P) → TalksWorld fresh (serving 0) w (handle_registration P w)
  unfolding handle_registration
  handle_registration-Talks w =
      Talks-bind (Talks-Runs (exists-Runs P cl_info_file w)) (λ registered v _.
        Talks-branch registered _ _ (λ _. client_re_registration-Talks P v)
          (λ _. client_registration-Talks P v))

  client_backup-Talks : (w : World P) → TalksWorld (serving 0) (serving 0) w (backup_files P w)
  unfolding backup_files
  client_backup-Talks w =
      Talks-bind (Talks-Runs (prompt_backup_directory-Runs P _ w (omega arith))) (λ dir v _.
        Talks-bind (Talks-Runs (prompt_files_to_backup-Runs P _ v (omega arith))) (λ files u _.
          let backed =
            backup_files-Talks P dir files
              (record { world = u; encrypted_file_size = 0; crc_error = false }) in
          record {
            real = backed.real;
            phase = backed.phase;
            session = backed.session;
            after = backed.after;
            served = backed.served;
          }))

  -- The goodbye, in any phase.
  farewell-Ends :
      (p : Phase) (w : World P) (x : Bool × P.Socket)
      → Session p w left (record w { socket = x.1 })
      → Ends p w (after_write P x w)
  farewell-Ends p w (true, s) h = record { real = ok-IsReal; phase = left; session = h }
  farewell-Ends p w (false, s) h = record { real = λ e. cc; phase = left; session = h }

  after_close-Runs :
      (x : Bool × P.Socket) (w : World P)
      → Step w (record w { socket = x.1 })
      → Runs w (Client.after_close P x w)
  after_close-Runs (true, s) w step = Runs-step ok-IsReal step
  after_close-Runs (false, s) w step = Runs-step (λ e. cc) step

  disconnect-Ends : (p : Phase) (w : World P) → Ends p w (disconnect P w)
  unfolding disconnect send_request
  disconnect-Ends p w =
      let goodbye = subst (λ (c : ℕ). Moves p c left) (sym disconnect_request-coded) Moves.leaves in
      Ends-if (P.is_open w.socket)
        (λ _.
          Ends-bind {f = λ _ u. Client.after_close P (P.close u.socket) u}
            (farewell-Ends p w _ (
              wrote start disconnect_request (disconnect_request-IsRequest P.host.order) goodbye
                refl))
            (λ _ v _. after_close-Runs (P.close v.socket) v (closed refl)))
        (λ _. Ends-Runs (Runs-lift ok-IsReal))

  pub run-Ends : (w : World P) → Ends fresh w (run P w)
  unfolding run
  run-Ends w = Ends-behind (Talks-Runs (connect-Runs w)) (λ _ v _.
      Ends-behind (handle_registration-Talks v)
        (λ _ u _. Ends-behind (client_backup-Talks u) (λ _ t _. disconnect-Ends (serving 0) t)))

  reported-Runs : (r : Result Text) (w : World P) → Runs w (reported P r w)
  reported-Runs (ok t) w = Runs-lift ok-IsReal
  reported-Runs (err e) w = Runs-step ok-IsReal (printed _ refl)

  pub log_exception-Runs : (e : Error) (w : World P) → Runs w (log_exception P e w)
  unfolding log_exception
  log_exception-Runs e w =
      Runs-if (w.writable (get_log_path w))
        (λ _. Runs-after (one_step (stored _ _ IsOwn.log refl)) (reported-Runs _ _))
        (λ _. Runs-step ok-IsReal (printed _ refl))

  handle_startup_failure-Ends :
      (p : Phase) (e : Error) (message : Line) (w : World P)
      → Ends p w (handle_startup_failure P e message w)
  unfolding handle_startup_failure
  handle_startup_failure-Ends p e message w =
      Ends-behind (Talks-Runs (log_exception-Runs e w))
        (λ _ v _. Ends-bind (disconnect-Ends p v) (λ _ u _. Runs-step ok-IsReal (printed _ refl)))

  handled-Ends :
      (p : Phase) (e : Error) (message : Option Line) (w : World P)
      → IsReal {A = Unit {0}} (err e)
      → Ends p w (handled P e message w)
  handled-Ends p e none w h = Ends-Runs (Runs-lift h)
  handled-Ends p e (some message) w h = handle_startup_failure-Ends p e message w

  caught-Ends :
      (w : World P) (x : Result (Unit {0}) × World P) → Ends fresh w x → Ends fresh w (caught P x)
  caught-Ends w (ok a, v) h = h
  caught-Ends w (err e, v) h =
      Ends-after h.session (handled-Ends h.phase e (failure_message e) v h.real)

  cleanup-Runs : (w : World P) → Runs w (cleanup_temporary_aes_key P w)
  unfolding cleanup_temporary_aes_key
  cleanup-Runs w = Runs-bind (exists-Runs P aes_key_file w) (λ stays v _.
      Runs-if stays (λ _. remove_file-Runs P _ v IsOwn.aes_key) (λ _. Runs-lift ok-IsReal))

  pub main-Ends : (w : World P) → Ends fresh w (main P w)
  unfolding main
  main-Ends w =
      Ends-bind (caught-Ends w _ (run-Ends w))
        (λ _ v _. Runs-bind (cleanup-Runs v) (λ _ u _. Runs-lift ok-IsReal))
