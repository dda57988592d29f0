-- ===== src/Crypto/Upload/Sending.antt =====
-- What an upload writes to the socket (send_encrypted_file_request of
-- src/crypto/FileAuthentication.cpp over CommunicationManager::send_request).
use encrypted_backup_client.Base.{
  ℕ, zero, suc, ◌+◌, ◌-◌, ◌/◌, ◌≡◌, refl, ap, sym, ◌∙◌, Bool-cases, Option-cases, inl, inr, true,
  List, ◌∷◌, ◌++◌, map, concat, append-nil, append_assoc, length, Text, ok,
}
use encrypted_backup_client.Protocol.Request.{
  Request, RequestHeader, serialize, init_header, set_user_id,
}
use encrypted_backup_client.Protocol.Bytes.{ByteOrder}
use encrypted_backup_client.System.Platform.{Platform}
use encrypted_backup_client.System.World.{World, Line, upload_progress}
use encrypted_backup_client.System.Files.{cl_info_file}
use encrypted_backup_client.Core.Communication.{send_request}
use encrypted_backup_client.Registration.Credentials.{load_user_id}
use encrypted_backup_client.Crypto.Upload.{
  Auth, Encrypted, encrypt_file, chunk_request, get_chunk_size, next_percent, print_upload_progress,
  send_packets, upload_request, send_encrypted_file_request,
}
use encrypted_backup_client.Crypto.Upload.Chunks.{requests, last_request}

-- A connected socket. "Write all of the supplied data before returning": a write succeeds and
-- appends its bytes to what was sent.
pub record IsSink (P : Platform) : Type 0 where
  pub sent : P.Socket → Text
  pub asio_write-sent :
      (bytes : Text) (s : P.Socket)
      → (t : P.Socket) × (P.asio_write bytes s ≡ (true, t)) × (sent t ≡ sent s ++ bytes)

abbrev pub with_output : {P : Platform} → Auth P → List Line → Auth P
with_output s out = record s { world = record s.world { output = out } }

abbrev pub with_socket : {P : Platform} → Auth P → P.Socket → Auth P
with_socket s socket = record s { world = record s.world { socket = socket } }

-- Requests as they follow each other on the socket.
abbrev pub wire : ByteOrder → List Request → Text
wire o rs = concat (map (serialize o) rs)

module _ (P : Platform) (sink : IsSink P) where
  -- Progress changes nothing but the console.
  pub print_upload_progress_quiet :
      (packet total printed : ℕ) (s : Auth P)
      → (n : ℕ) × (out : List Line) × (print_upload_progress P packet total printed s
          ≡ (ok n, with_output s out))
  unfolding print_upload_progress
  print_upload_progress_quiet packet total printed s = elim (Bool-cases s.crc_error) [
    | inl failed ↦ (printed, s.world.output, rw failed)
    | inr fresh ↦ elim (Option-cases (next_percent packet total printed)) [
      | inl silent ↦ (printed, s.world.output, rw (fresh, silent))
      | inr (n, shown) ↦ (n, upload_progress n ∷ s.world.output, rw (fresh, shown))
    ]
  ]

  pub send_request-sent :
      (r : Request) (w : World P)
      → (t : P.Socket) × (send_request P r w ≡ (ok tt, record w { socket = t }))
        × (sink.sent t ≡ sink.sent w.socket ++ serialize P.host.order r)
  unfolding send_request
  send_request-sent r w =
      let (t, p, q) = sink.asio_write-sent (serialize P.host.order r) w.socket in (t, rw p, q)

  pub send_packets-sent :
      (encrypted_file : Text) (c total left packet : ℕ) (r : Request) (printed : ℕ) (s : Auth P)
      → (t : P.Socket) × (out : List Line) × (send_packets P encrypted_file c total left packet r
            printed s
          ≡ (ok (last_request encrypted_file c left packet r), with_socket (with_output s out) t))
        × (sink.sent t
            ≡ sink.sent s.world.socket
              ++ wire P.host.order (requests encrypted_file c left packet r))
  unfolding send_packets requests last_request
  send_packets-sent encrypted_file c total zero packet r printed s =
      (s.world.socket, s.world.output, refl, sym (append-nil _))
  send_packets-sent encrypted_file c total (suc left) packet r printed s =
      let next = chunk_request encrypted_file c r packet in
      let (n, out, shown) = print_upload_progress_quiet packet total printed s in
      let (t, written, more) = send_request-sent next (with_output s out).world in
      let (u, out', looped, all) =
        send_packets-sent encrypted_file c total left (packet + 1) next n
          (with_socket (with_output s out) t) in
      (
        u,
        out',
        rw (shown, written, looped),
        all
            ∙ ap
                (λ (b : Text).
                  b ++ wire P.host.order (requests encrypted_file c left (packet + 1) next))
                more
            ∙ append_assoc (sink.sent s.world.socket) (serialize P.host.order next)
                (wire P.host.order (requests encrypted_file c left (packet + 1) next)),
      )

  -- On a connected socket an upload whose file was encrypted, for a stored user ID that is
  -- hexadecimal, succeeds: it hands back the file's bytes, has written the serialized packets and
  -- nothing else, and keeps as the encrypted size the chunk size of the last packet. But for the
  -- socket, the console and what encrypting changed, the state is as before.
  pub send_encrypted_file_request-sent :
      (file_path file_name user_id : Text) (e : Encrypted) (header : RequestHeader) (s : Auth P)
      (w : World P)
      → encrypt_file P file_path file_name s.world ≡ (ok e, w)
      → load_user_id P cl_info_file w ≡ (ok user_id, w)
      → set_user_id user_id init_header ≡ ok header
      → let c = get_chunk_size e.file_size in
        let total = (length e.encrypted_file + c - 1) / c in
        let r = upload_request header file_name e.file_size total in
        (t : P.Socket) × (out : List Line) × (send_encrypted_file_request P file_path file_name s
          ≡ (
            ok e.file_data,
            record {
              world = record w { socket = t; output = out };
              encrypted_file_size =
                  (last_request e.encrypted_file c total 1 r).payload.encrypted_chunk_size;
              crc_error = s.crc_error;
            },
          ))
        × (sink.sent t
            ≡ sink.sent w.socket ++ wire P.host.order (requests e.encrypted_file c total 1 r))
  unfolding send_encrypted_file_request
  send_encrypted_file_request-sent file_path file_name user_id e header s w encrypted loaded set =
      let c = get_chunk_size e.file_size in
      let total = (length e.encrypted_file + c - 1) / c in
      let r = upload_request header file_name e.file_size total in
      let (t, out, sent, all) =
        send_packets-sent e.encrypted_file c total total 1 r 0 (record s { world = w }) in
      (t, out, rw (encrypted, loaded, set, sent), all)
