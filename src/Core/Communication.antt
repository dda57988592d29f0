-- ===== src/Core/Communication.antt =====
-- Sending requests and receiving responses: src/core/CommunicationManager.cpp.
pub mod Framing
use encrypted_backup_client.Base.{
  ℕ, ◌+◌, Bool, true, false, Option, none, some, [], ◌++◌, ltb, if◌then◌else◌, Text, text, slice,
  ok, err, Error, system_error,
}
use encrypted_backup_client.Protocol.Sizeof
use encrypted_backup_client.Protocol.Bytes.{object_value}
use encrypted_backup_client.Protocol.Request.{Request, serialize}
use encrypted_backup_client.Protocol.Response.{Response, deserialize, response_header_size}
use encrypted_backup_client.System.State.{M, ◌>>=◌, return, lift}
use encrypted_backup_client.System.Platform.{Platform}
use encrypted_backup_client.System.World.{World}

abbrev payload_size_field_offset : ℕ
payload_size_field_offset = Sizeof.version + Sizeof.code

module _ (P : Platform) where
  -- The two calls of Boost.Asio, with their error codes thrown as `system_error`.
  abbrev pub after_write : Bool × P.Socket → M (World P) (Unit {0})
  after_write (true, s) w = (ok tt, record w { socket = s })
  after_write (false, s) w =
      (err (system_error (text "Failed to send request to the server")), record w { socket = s })

  abbrev pub after_read : Error → Option Text × P.Socket → M (World P) Text
  after_read e (some bytes, s) w = (ok bytes, record w { socket = s })
  after_read e (none, s) w = (err e, record w { socket = s })

  unfoldable pub send_request : Request → M (World P) (Unit {0})
  send_request request w = after_write (P.asio_write (serialize P.host.order request) w.socket) w

  unfoldable pub read_exactly : ℕ → Error → M (World P) Text
  read_exactly n e w = after_read e (P.asio_read n w.socket) w

  -- The payload is read only if the header announces one.
  unfoldable pub read_payload : ℕ → M (World P) Text
  read_payload payload_size =
      if ltb 0 payload_size
      then read_exactly payload_size
          (system_error (text "Failed to read response payload from the server"))
      else return []

  unfoldable pub receive_response : M (World P) Response
  receive_response = do
    header_buffer ←
        read_exactly response_header_size
          (system_error (text "Failed to read response header from the server"))
    let net_payload_size =
        object_value P.host.order
          (slice payload_size_field_offset Sizeof.payload_size header_buffer)
    payload_buffer ← read_payload (P.host.ntohl net_payload_size)
    lift (deserialize P.host (header_buffer ++ payload_buffer))
