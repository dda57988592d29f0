-- ===== src/Config/Server.antt =====
-- The server's address: src/config/config_handling.cpp, over Boost.JSON.
pub mod Port
use encrypted_backup_client.Base.{
  ℕ, ℤ, pos, negsuc, ◌%◌, ◌^◌, Option, none, some, ltb, if◌then◌else◌, Text, text, Result, ok, err,
  out_of_range, or_throw,
}
use encrypted_backup_client.Base.Int.{to_int}
use encrypted_backup_client.Protocol.Fields.{until_nul}
use encrypted_backup_client.System.State.{M, ◌>>=◌, return, lift}
use encrypted_backup_client.System.Platform.{Platform}
use encrypted_backup_client.System.World.{World}
use encrypted_backup_client.System.Files.{open_file}

abbrev pub max_port_number : ℕ
max_port_number = 65535

-- The range test of the `int`, and its conversion to `uint16_t`.
unfoldable pub checked_port : ℤ → Result ℕ
checked_port (negsuc n) = err (out_of_range (text "Port number out of range"))
checked_port (pos port) =
    if ltb max_port_number port
    then err (out_of_range (text "Port number out of range"))
    else ok (port % 2 ^ 16)

unfoldable pub port_of : ℤ → Result ℕ
port_of port = checked_port (to_int port)

module _ (P : Platform) where
  -- The host is taken by `c_str()`, up to its first NUL.
  unfoldable pub load_server_address : Text → M (World P) (Text × ℕ)
  load_server_address file_name = do
    config_file ← open_file file_name file_name
    config ← lift (or_throw (P.parse_json config_file.content))
    server ← lift (or_throw (P.at config (text "server")))
    host ← lift (or_throw (P.at server (text "host")))
    server_ip ← lift (or_throw (P.as_string host))
    port_value ← lift (or_throw (P.at server (text "port")))
    port ← lift (or_throw (P.as_int64 port_value))
    server_port ← lift (port_of port)
    return (until_nul server_ip, server_port)
