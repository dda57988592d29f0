-- ===== src/Core/Client/Requests.antt =====
-- The declared and the actual payload sizes of the requests without a chunk (src/registration,
-- src/crypto/FileAuthentication.cpp, src/core/ClientHandler.cpp).
use encrypted_backup_client.Base.{ℕ, ◌+◌, ◌<◌, ◌^◌, ◌≡◌, [], length, arith, Text, ap, ◌∙◌}
use encrypted_backup_client.Protocol.Bytes.{ByteOrder}
use encrypted_backup_client.Protocol.Request.{
  RequestHeader, RequestPayload, init_header, init_payload, init_request, set_payload_size,
  set_file_name, serialize,
}
use encrypted_backup_client.Protocol.Request.Layout.{IsHeader, IsPayload, length-serialize}
use encrypted_backup_client.Protocol.Request.Initial.{
  init_payload-IsPayload, named-IsPayload, coded-IsHeader, init_header-IsHeader,
}
use encrypted_backup_client.Registration.KeyExchange.{exchange_request}
use encrypted_backup_client.Crypto.Backup.{crc_status_request}
use encrypted_backup_client.Core.Client.{disconnect_request}

-- On every host the requests of the key exchange and of the CRC status have as many payload bytes
-- as their header declares. The disconnect request has 8 more: its size leaves out the file size,
-- the packet number and the packet count, which are serialized all the same.
pub length-serialize_declared :
    (o : ByteOrder) (h : RequestHeader) (p : RequestPayload) (file_name : Text) (code : ℕ)
    → IsHeader h
    → IsPayload p
    → p.encrypted_chunk_data ≡ []
    → code < 2 ^ 16
    → let exchange = exchange_request h code p in
      let status = crc_status_request h file_name code in
      (length (serialize o exchange) ≡ 23 + exchange.header.payload_size)
      × (length (serialize o status) ≡ 23 + status.header.payload_size)
      × (length (serialize o disconnect_request) ≡ 23 + disconnect_request.header.payload_size + 8)
unfolding exchange_request crc_status_request disconnect_request init_request set_payload_size
    set_file_name init_payload
length-serialize_declared o h p file_name code vh vp empty c =
    let full = coded-IsHeader h code 491 vh c (omega arith) in
    let last =
      coded-IsHeader init_header 130 483 init_header-IsHeader (omega arith) (omega arith) in
    (
      length-serialize o _ full vp ∙ ap (λ (d : Text). 23 + 491 + length d) empty,
      length-serialize o _ full (named-IsPayload file_name),
      length-serialize o _ last init_payload-IsPayload,
    )
