-- ===== src/Tests/Main.antt =====
-- Whole runs of the client in memory.
use encrypted_backup_client.Base.{
  ℕ, ltb, length, Bool-cases, inl, inr, ◌≡◌, ◌≢◌, refl, true, false, none, some, [], ◌∷◌, ◌++◌,
  text, text_eq, ok, err, Error, traced_exception, system_error, out_of_fuel,
}
use encrypted_backup_client.System.Platform.{Platform}
use encrypted_backup_client.System.World.{exists, World, something_wrong, join_path}
use encrypted_backup_client.System.Files.{remove_file, get_aes_key_path, open_file}
use encrypted_backup_client.Config.Server.{load_server_address}
use encrypted_backup_client.Core.Communication.{send_request}
use encrypted_backup_client.Core.Client.{run, connect, disconnect}
use encrypted_backup_client.Utils.Logger.{log_exception, create_timestamp}
use encrypted_backup_client.Main.{
  main, failure_message, handle_startup_failure, cleanup_temporary_aes_key,
}
use encrypted_backup_client.Trace.Files.{IsForeign, main_keeps_files}
use encrypted_backup_client.Trace.Wire.{IsTap}
use encrypted_backup_client.Trace.Exit.{Exit, main_never_out_of_fuel}
use encrypted_backup_client.Trace.Cleanup.{main_removes_aes_key, main_keeps_aes_key}
use encrypted_backup_client.Tests.Machine.{
  Wire, read_wire, machine, machine_sink, world, registered_files,
}

-- A registered client with an AES key and no server configuration.
abbrev unconfigured : World machine
unconfigured = world registered_files [] []

notes_IsForeign : IsForeign (b'/' ∷ b'c' ∷ []) (text "/c/d/notes.txt")
unfolding text text_eq join_path
notes_IsForeign = record {
  not_client_info = refl;
  not_aes_key = refl;
  not_private_key = refl;
  not_log = refl;
}

main_keeps_files_example :
    ((main machine unconfigured).1.files (text "/c/d/notes.txt")
      ≡ registered_files (text "/c/d/notes.txt"))
    × ((main machine unconfigured).1.current_path ≡ b'/' ∷ b'c' ∷ [])
main_keeps_files_example =
    main_keeps_files machine unconfigured (text "/c/d/notes.txt") notes_IsForeign

reading_sends_nothing : (n : ℕ) (s : Wire) → (read_wire n s).1.outgoing ≡ s.outgoing
reading_sends_nothing n s = elim (Bool-cases (ltb (length s.incoming) n)) [
  | inl too_few ↦ rw too_few refl
  | inr enough ↦ rw enough refl
]

pub machine_tap : IsTap machine
machine_tap = record {
  sink = machine_sink;
  asio_read-sent = reading_sends_nothing;
  connect-sent = λ e s. refl;
  close-sent = λ s. refl;
}

main_never_out_of_fuel_example : (main machine unconfigured).0 ≢ err out_of_fuel
main_never_out_of_fuel_example = main_never_out_of_fuel machine unconfigured

returns : (main machine unconfigured).0 ≡ ok 0
unfolding main run connect load_server_address open_file text_eq join_path text failure_message
    handle_startup_failure log_exception create_timestamp disconnect send_request
    cleanup_temporary_aes_key exists remove_file
returns = refl

main_removes_aes_key_example :
    let u = (main machine unconfigured).1 in u.files (get_aes_key_path u) ≡ none
main_removes_aes_key_example = main_removes_aes_key machine unconfigured 0 returns

-- The same client behind a connection that takes nothing any more.
abbrev deaf : Platform
deaf = record machine { asio_write = λ bytes s. (false, s) }

abbrev cut_off : World deaf
cut_off = record {
  socket = record { incoming = []; outgoing = []; connected = true };
  random = 7;
  current_path = b'/' ∷ b'c' ∷ [];
  files = registered_files;
  is_directory = λ path. false;
  writable = λ path. true;
  removable = λ path. true;
  status_fails = λ path. false;
  input = [];
  output = [];
  local_time = none;
}

abbrev no_config : Error
no_config = traced_exception (text "Failed to open " ++ text "/c/server_config.json")

abbrev logged : World deaf
logged = (log_exception deaf no_config cut_off).1

ran : run deaf cut_off ≡ (err no_config, cut_off)
unfolding run connect load_server_address open_file text_eq join_path text
ran = refl

handled : failure_message no_config ≡ some something_wrong
unfolding failure_message
handled = refl

log_written : log_exception deaf no_config cut_off ≡ (ok tt, logged)
unfolding log_exception create_timestamp
log_written = refl

lost :
    disconnect deaf logged
    ≡ (err (system_error (text "Failed to send request to the server")), (disconnect deaf logged).1)
unfolding disconnect log_exception create_timestamp send_request
lost = refl

main_keeps_aes_key_example :
    (main deaf cut_off ≡ (
      err (system_error (text "Failed to send request to the server")),
      (disconnect deaf logged).1,
    ))
    × ((disconnect deaf logged).1.files (get_aes_key_path cut_off)
        ≡ cut_off.files (get_aes_key_path cut_off))
main_keeps_aes_key_example =
    main_keeps_aes_key deaf cut_off cut_off logged (disconnect deaf logged).1 no_config
      (system_error (text "Failed to send request to the server")) something_wrong ran handled
      log_written lost
