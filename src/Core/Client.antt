-- ===== src/Core/Client.antt =====
-- The client's workflow: src/core/ClientHandler.cpp, behind the connection.
pub mod Startup
pub mod Requests
pub mod Keyed
use encrypted_backup_client.Base.{
  foreign_error, ℕ, ◌+◌, Bool, true, false, none, some, List, if◌then◌else◌, Text, Option, text,
  ◌++◌, err, system_error, to_string, Result, ok, err, suc, length,
}
use encrypted_backup_client.Protocol.Types.{username_len, rsa_key_len, file_name_len}
use encrypted_backup_client.Protocol.Sizeof
use encrypted_backup_client.Protocol.RequestCode
use encrypted_backup_client.Protocol.Request.{
  Request, init_header, init_payload, set_request_code, set_payload_size,
}
use encrypted_backup_client.System.State.{M, ◌>>=◌, ◌>>◌, update, lift}
use encrypted_backup_client.System.Platform.{Platform}
use encrypted_backup_client.System.World.{World, exists, connected_to, print}
use encrypted_backup_client.System.Files.{cl_info_file, get_server_config_path}
use encrypted_backup_client.Config.Server.{load_server_address}
use encrypted_backup_client.Core.Communication.{send_request}
use encrypted_backup_client.Ui.Selection.{prompt_backup_directory, prompt_files_to_backup}
use encrypted_backup_client.Crypto.Upload.{Auth}
use encrypted_backup_client.Crypto.Backup
use encrypted_backup_client.Registration.Flow.{client_registration, client_re_registration}

abbrev pub disconnect_payload_size : ℕ
disconnect_payload_size = username_len + rsa_key_len + Sizeof.enc_chunk_size + file_name_len

unfoldable pub disconnect_request : Request
disconnect_request = record {
  header =
      set_payload_size disconnect_payload_size
        (set_request_code RequestCode.disconnect init_header);
  payload = init_payload;
}

module _ (P : Platform) where
  unfoldable pub handle_registration : M (World P) (Unit {0})
  handle_registration = do
    registered ← exists cl_info_file
    if registered then client_re_registration P else client_registration P

  -- `backup_files`, with a new `FileAuthentication`.
  abbrev with_auth : Result (Unit {0}) × Auth P → Result (Unit {0}) × World P
  with_auth (r, s) = (r, s.world)

  unfoldable pub backup_files : M (World P) (Unit {0})
  backup_files = do
    backup_dir_name ← (λ w. prompt_backup_directory P (suc (length w.input)) w)
    files ← (λ w. prompt_files_to_backup P (suc (length w.input)) w)
    (λ w. with_auth (
        Backup.backup_files P backup_dir_name files
          (record { world = w; encrypted_file_size = 0; crc_error = false })))

  abbrev pub after_close : Bool × P.Socket → M (World P) (Unit {0})
  after_close (true, s) w = (ok tt, record w { socket = s })
  after_close (false, s) w = (err foreign_error, record w { socket = s })

  -- Nothing is sent on a closed socket. The close may throw an error of the library.
  unfoldable pub disconnect : M (World P) (Unit {0})
  disconnect w =
      if P.is_open w.socket
      then (send_request P disconnect_request >> (λ u. after_close (P.close u.socket) u)) w
      else (ok tt, w)

  -- The two calls of Boost.Asio in `connect`, with their error codes thrown as `system_error`.
  abbrev pub resolved : Option P.Endpoints → Result P.Endpoints
  resolved none = err (system_error (text "Failed to resolve server address"))
  resolved (some endpoints) = ok endpoints

  abbrev pub connected : Text → Text → Option (Text × ℕ) × P.Socket → M (World P) (Text × ℕ)
  connected server_ip port (none, s) w = (
    err (
        system_error
          (text "Failed to connect to server " ++ (server_ip ++ (text " on port " ++ port)))),
    record w { socket = s },
  )
  connected server_ip port (some endpoint, s) w = (ok endpoint, record w { socket = s })

  unfoldable pub connect : M (World P) (Unit {0})
  connect = do
    (server_ip, server_port) ← (λ w. load_server_address P (get_server_config_path w) w)
    endpoints ← lift (resolved (P.resolve_address server_ip (to_string server_port)))
    (address, port) ←
        (λ w. connected server_ip (to_string server_port) (P.connect endpoints w.socket) w)
    print (connected_to address port)

  unfoldable pub run : M (World P) (Unit {0})
  run = do connect; handle_registration; backup_files; disconnect
