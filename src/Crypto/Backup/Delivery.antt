-- ===== src/Crypto/Backup/Delivery.antt =====
-- A backup whose upload the server confirms (FileAuthentication::backup_file of
-- src/crypto/FileAuthentication.cpp).
use encrypted_backup_client.Base.{
  ℕ, ◌+◌, ◌-◌, ◌/◌, ◌≡◌, refl, ap, sym, ◌∙◌, false, List, ◌∷◌, length, Text, IsBytes, Result, ok,
}
use encrypted_backup_client.Protocol.Bytes.{IsNetworkOrder}
use encrypted_backup_client.Protocol.ResponseCode
use encrypted_backup_client.Protocol.Request.{Request, RequestHeader, init_header, set_user_id}
use encrypted_backup_client.Protocol.Response.{Response}
use encrypted_backup_client.Protocol.Response.RoundTrip.{write_response, IsBytes-write_response}
use encrypted_backup_client.System.Platform.{Platform}
use encrypted_backup_client.System.World.{World, Line, file_sent}
use encrypted_backup_client.System.Files.{cl_info_file}
use encrypted_backup_client.Registration.Credentials.{load_user_id}
use encrypted_backup_client.Crypto.Upload.{
  Auth, Encrypted, encrypt_file, get_chunk_size, upload_request, send_encrypted_file_request,
}
use encrypted_backup_client.Crypto.Upload.Chunks.{last_request}
use encrypted_backup_client.Crypto.Upload.Sending.{send_packets-sent}
use encrypted_backup_client.Crypto.Backup.{attempt, backup_loop, backup_file}
use encrypted_backup_client.Crypto.Backup.Answers.{
  IsDuplex, IsAnswer, moved, pending, send_packets-pending, load_user_id-moved, verify_confirmed,
  finish_acknowledged,
}

module _ (P : Platform) (duplex : IsDuplex P) (net : IsNetworkOrder P.host) where
  -- The upload of an encrypted file on a connected socket, with what the peer sends untouched.
  upload_written :
      (file_path file_name user_id : Text) (e : Encrypted) (header : RequestHeader) (s : Auth P)
      (w : World P)
      → encrypt_file P file_path file_name s.world ≡ (ok e, w)
      → load_user_id P cl_info_file w ≡ (ok user_id, w)
      → set_user_id user_id init_header ≡ ok header
      → let c = get_chunk_size e.file_size in
        let total = (length e.encrypted_file + c - 1) / c in
        let r = upload_request header file_name e.file_size total in
        (t : P.Socket) × (out : List Line) × (send_encrypted_file_request P file_path file_name s
          ≡ (
            ok e.file_data,
            record {
              world = moved w t out;
              encrypted_file_size =
                  (last_request e.encrypted_file c total 1 r).payload.encrypted_chunk_size;
              crc_error = s.crc_error;
            },
          ))
        × (pending P duplex net t ≡ pending P duplex net w.socket)
  unfolding send_encrypted_file_request
  upload_written file_path file_name user_id e header s w encrypted loaded set =
      let c = get_chunk_size e.file_size in
      let total = (length e.encrypted_file + c - 1) / c in
      let r = upload_request header file_name e.file_size total in
      let start : Auth P = record s { world = w } in
      let (t, out, looped, _) =
        send_packets-sent P duplex.sink e.encrypted_file c total total 1 r 0 start in
      (
        t,
        out,
        rw (encrypted, loaded, set, looped) refl,
        ap (λ (x : Result Request × Auth P). pending P duplex net x.1.world.socket) (sym looped)
            ∙ send_packets-pending P duplex net e.encrypted_file c total total 1 r 0 start,
      )

  -- The state that a delivered file leaves: another socket, and more lines printed.
  pub backup_file-moved :
      (file_path file_name user_id : Text) (e : Encrypted) (header : RequestHeader) (s : Auth P)
      (w : World P) (confirmation acknowledgment : Response) (rest : Text)
      → encrypt_file P file_path file_name s.world ≡ (ok e, w)
      → load_user_id P cl_info_file w ≡ (ok user_id, w)
      → set_user_id user_id init_header ≡ ok header
      → IsAnswer user_id ResponseCode.upload_received confirmation
      → confirmation.payload.checksum ≡ P.crc32 e.file_data
      → (let c = get_chunk_size e.file_size in
          let total = (length e.encrypted_file + c - 1) / c in
          let r = upload_request header file_name e.file_size total in
          confirmation.payload.encrypted_file_size
          ≡ (last_request e.encrypted_file c total 1 r).payload.encrypted_chunk_size)
      → IsAnswer user_id ResponseCode.ack acknowledgment
      → IsBytes rest
      → pending P duplex net w.socket
        ≡ write_response confirmation (write_response acknowledgment rest)
      → (t : P.Socket) × (out : List Line) × (n : ℕ) × (backup_file P file_path file_name s
          ≡ (ok tt, record { world = moved w t out; encrypted_file_size = n; crc_error = false }))
        × (pending P duplex net t ≡ rest)
  unfolding backup_file backup_loop attempt
  backup_file-moved file_path file_name user_id e header s w confirmation acknowledgment rest
        encrypted loaded set confirms sum size acknowledges more waiting =
      let (t, out, uploaded, kept) =
        upload_written file_path file_name user_id e header s w encrypted loaded set in
      let c = get_chunk_size e.file_size in
      let total = (length e.encrypted_file + c - 1) / c in
      let r = upload_request header file_name e.file_size total in
      let sent : Auth P = record {
        world = moved w t out;
        encrypted_file_size =
            (last_request e.encrypted_file c total 1 r).payload.encrypted_chunk_size;
        crc_error = s.crc_error;
      } in
      let (u, verified, left) =
        verify_confirmed P duplex net e.file_data user_id confirmation
          (write_response acknowledgment rest) sent confirms sum size
          (λ x. load_user_id-moved P duplex net w user_id x out loaded)
          (IsBytes-write_response acknowledgment rest acknowledges.valid more) (kept ∙ waiting) in
      let (v, finished, behind) =
        finish_acknowledged P duplex net file_name user_id header acknowledgment rest
          (moved w u out) acknowledges set
          (λ x o. load_user_id-moved P duplex net w user_id x o loaded) more left in
      (
        v,
        file_sent file_name ∷ out,
        sent.encrypted_file_size,
        rw (uploaded, verified, finished) refl,
        behind,
      )

  -- On a connected socket, when the file could be encrypted, the client's user ID is stored and is
  -- hexadecimal, and the server has answered the upload with a confirmation of the file's checksum
  -- and of the size that the client keeps, and the client's report with an acknowledgment, both for
  -- this user, the backup of the file succeeds after one upload: it returns, no CRC error is left,
  -- and of what the server sends exactly the two answers are consumed.
  pub backup_file-delivered :
      (file_path file_name user_id : Text) (e : Encrypted) (header : RequestHeader) (s : Auth P)
      (w : World P) (confirmation acknowledgment : Response) (rest : Text)
      → encrypt_file P file_path file_name s.world ≡ (ok e, w)
      → load_user_id P cl_info_file w ≡ (ok user_id, w)
      → set_user_id user_id init_header ≡ ok header
      → IsAnswer user_id ResponseCode.upload_received confirmation
      → confirmation.payload.checksum ≡ P.crc32 e.file_data
      → (let c = get_chunk_size e.file_size in
          let total = (length e.encrypted_file + c - 1) / c in
          let r = upload_request header file_name e.file_size total in
          confirmation.payload.encrypted_file_size
          ≡ (last_request e.encrypted_file c total 1 r).payload.encrypted_chunk_size)
      → IsAnswer user_id ResponseCode.ack acknowledgment
      → IsBytes rest
      → pending P duplex net w.socket
        ≡ write_response confirmation (write_response acknowledgment rest)
      → (u : Auth P) × (backup_file P file_path file_name s ≡ (ok tt, u))
        × (pending P duplex net u.world.socket ≡ rest)
        × (u.crc_error ≡ false)
  backup_file-delivered file_path file_name user_id e header s w confirmation acknowledgment rest
        encrypted loaded set confirms sum size acknowledges more waiting =
      let (t, out, n, done, left) =
        backup_file-moved file_path file_name user_id e header s w confirmation acknowledgment rest
          encrypted loaded set confirms sum size acknowledges more waiting in
      (
        record { world = moved w t out; encrypted_file_size = n; crc_error = false },
        done,
        left,
        refl,
      )
