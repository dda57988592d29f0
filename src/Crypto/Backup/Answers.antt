-- ===== src/Crypto/Backup/Answers.antt =====
-- What the server's two answers to an upload make of a backup (src/crypto/FileAuthentication.cpp),
-- on a socket in both directions.
use encrypted_backup_client.Base.{
  ℕ, zero, suc, ◌+◌, ◌≡◌, refl, ap, sym, ◌∙◌, Bool, true, false, List, [], ◌∷◌, ==_refl, Text, text,
  text_eq_refl, IsBytes, Option-cases, inl, inr, Result, ok,
}
use encrypted_backup_client.Protocol.Bytes.{IsNetworkOrder}
use encrypted_backup_client.Protocol.RequestCode
use encrypted_backup_client.Protocol.ResponseCode
use encrypted_backup_client.Protocol.Request.{
  Request, RequestHeader, serialize, init_header, set_user_id,
}
use encrypted_backup_client.Protocol.Response.{Response, get_user_id}
use encrypted_backup_client.Protocol.Response.RoundTrip.{IsResponse, write_response}
use encrypted_backup_client.System.Platform.{Platform}
use encrypted_backup_client.System.State.{M, ◌>>=◌, return, lift}
use encrypted_backup_client.System.World.{World, Line, resolve, file_sent}
use encrypted_backup_client.System.Files.{cl_info_file, open_file, lines}
use encrypted_backup_client.Core.Communication.{send_request}
use encrypted_backup_client.Core.Communication.Framing.{IsStream, receive_response-write_response}
use encrypted_backup_client.Registration.Credentials.{
  load_user_id, open_input_file, read_required_line,
}
use encrypted_backup_client.Crypto.Upload.Moved.{stirred}
use encrypted_backup_client.Crypto.Upload.{Auth, chunk_request, send_packets}
use encrypted_backup_client.Crypto.Upload.Sending.{
  IsSink, with_output, with_socket, print_upload_progress_quiet,
}
use encrypted_backup_client.Crypto.Backup.{
  accept_upload, check_upload, accept_ack, check_ack, compare_upload, verify_upload_crc_response,
  crc_status_request, send_crc_status_request, process_srv_ack_response, finish_upload,
}

-- A socket in both directions: writing takes nothing of what the peer sends.
pub record IsDuplex (P : Platform) : Type 0 where
  pub stream : IsStream P
  pub sink : IsSink P
  pub asio_write-pending :
      (bytes : Text) (s : P.Socket) → stream.pending (P.asio_write bytes s).1 ≡ stream.pending s

-- An answer of the server to the client with this user ID.
pub record IsAnswer (user_id : Text) (code : ℕ) (r : Response) : Type 0 where
  pub valid : IsResponse r
  pub coded : r.header.response_code ≡ code
  pub addressed : get_user_id r.payload ≡ ok user_id

-- The world with another socket and another output.
abbrev pub moved : {P : Platform} → World P → P.Socket → List Line → World P
moved w t out = record w { socket = t; output = out }

module _ (P : Platform) (duplex : IsDuplex P) (net : IsNetworkOrder P.host) where
  abbrev pub pending : P.Socket → Text
  pending = duplex.stream.pending

  pub send_request-pending :
      (r : Request) (w : World P)
      → (t : P.Socket) × (send_request P r w ≡ (ok tt, record w { socket = t }))
        × (pending t ≡ pending w.socket)
  unfolding send_request
  send_request-pending r w =
      let bytes : Text = serialize P.host.order r in
      let (t, p, _) = duplex.sink.asio_write-sent bytes w.socket in
      (
        t,
        rw p,
        ap (λ (x : Bool × P.Socket). pending x.1) (sym p)
            ∙ duplex.asio_write-pending bytes w.socket,
      )

  pub send_packets-pending :
      (encrypted_file : Text) (c total left packet : ℕ) (r : Request) (printed : ℕ) (s : Auth P)
      → pending (send_packets P encrypted_file c total left packet r printed s).1.world.socket
        ≡ pending s.world.socket
  unfolding send_packets
  send_packets-pending encrypted_file c total zero packet r printed s = refl
  send_packets-pending encrypted_file c total (suc left) packet r printed s =
      let next = chunk_request encrypted_file c r packet in
      let (n, out, shown) = print_upload_progress_quiet P duplex.sink packet total printed s in
      let (t, written, kept) = send_request-pending next (with_output s out).world in
      rw (shown, written)
        (send_packets-pending encrypted_file c total left (packet + 1) next n
            (with_socket (with_output s out) t)
          ∙ kept)

  -- The lines of the file, as `load_user_id` goes through them.
  abbrev second_line : List Text → M (World P) Text
  second_line ls = do
    (_, rest) ← lift (read_required_line P ls cl_info_file (text "Incorrect file format"))
    (user_id, rest') ← lift (read_required_line P rest cl_info_file (text "Failed to read User ID"))
    return user_id

  second_line-moved :
      (ls : List Text) (v w : World P) (user_id : Text)
      → second_line ls w ≡ (ok user_id, w)
      → second_line ls v ≡ (ok user_id, v)
  unfolding read_required_line
  second_line-moved [] v w user_id h = cc
  second_line-moved (l ∷ []) v w user_id h = cc
  second_line-moved (l ∷ k ∷ ls) v w user_id h =
      let same : ok (P.trim k) ≡ ok user_id = ap (λ (x : Result Text × World P). x.0) h in
      ap (λ (r : Result Text). (r, v)) same

  -- The stored user ID does not depend on the socket, the console or the random pool.
  pub load_user_id-stirred :
      (w : World P) (user_id : Text) (t : P.Socket) (out : List Line) (random : P.Random)
      → load_user_id P cl_info_file w ≡ (ok user_id, w)
      → load_user_id P cl_info_file (stirred w t out random) ≡ (ok user_id, stirred w t out random)
  unfolding load_user_id open_input_file open_file
  load_user_id-stirred w user_id t out random h =
      elim (Option-cases (w.files (resolve w cl_info_file))) [
        | inl missing ↦ let bad = rw missing at h in cc
        | inr (file, found) ↦
            let known = rw found at h in
            rw (found, load_user_id, open_input_file, open_file)
              (second_line-moved (lines file.content) (stirred w t out random) w user_id known)
      ]

  pub load_user_id-moved :
      (w : World P) (user_id : Text) (t : P.Socket) (out : List Line)
      → load_user_id P cl_info_file w ≡ (ok user_id, w)
      → load_user_id P cl_info_file (moved w t out) ≡ (ok user_id, moved w t out)
  load_user_id-moved w user_id t out h = load_user_id-stirred w user_id t out w.random h

  -- A confirmation: the upload counts as verified, and exactly the response is consumed.
  pub verify_confirmed :
      (file_data user_id : Text) (r : Response) (rest : Text) (s : Auth P)
      → IsAnswer user_id ResponseCode.upload_received r
      → r.payload.checksum ≡ P.crc32 file_data
      → r.payload.encrypted_file_size ≡ s.encrypted_file_size
      → ((t : P.Socket)
          → load_user_id P cl_info_file (moved s.world t s.world.output)
            ≡ (ok user_id, moved s.world t s.world.output))
      → IsBytes rest
      → pending s.world.socket ≡ write_response r rest
      → (t : P.Socket) × (verify_upload_crc_response P file_data s
          ≡ (ok true, record s { world = moved s.world t s.world.output; crc_error = false }))
        × (pending t ≡ rest)
  unfolding verify_upload_crc_response accept_upload check_upload compare_upload
  verify_confirmed file_data user_id r rest s a sum size loaded more waiting =
      let (t, received, left) =
        receive_response-write_response P duplex.stream net s.world r rest a.valid more waiting in
      (
        t,
        rw
            (
              received,
              a.coded,
              loaded t,
              a.addressed,
              text_eq_refl user_id,
              sum,
              size,
              ==_refl (P.crc32 file_data),
              ==_refl s.encrypted_file_size,
            )
            refl,
        left,
      )

  -- An acknowledged report ends the upload.
  pub finish_acknowledged :
      (file_name user_id : Text) (header : RequestHeader) (r : Response) (rest : Text) (w : World P)
      → IsAnswer user_id ResponseCode.ack r
      → set_user_id user_id init_header ≡ ok header
      → ((t : P.Socket) (out : List Line)
          → load_user_id P cl_info_file (moved w t out) ≡ (ok user_id, moved w t out))
      → IsBytes rest
      → pending w.socket ≡ write_response r rest
      → (t : P.Socket) × (finish_upload P file_name w
          ≡ (ok tt, moved w t (file_sent file_name ∷ w.output)))
        × (pending t ≡ rest)
  unfolding finish_upload send_crc_status_request process_srv_ack_response accept_ack check_ack
  finish_acknowledged file_name user_id header r rest w a set loaded more waiting =
      let report = crc_status_request header file_name RequestCode.crc_success in
      let (t, written, kept) = send_request-pending report w in
      let (u, received, left) =
        receive_response-write_response P duplex.stream net (moved w t w.output) r rest a.valid more
          (kept ∙ waiting) in
      (
        u,
        rw
            (
              loaded w.socket w.output,
              set,
              written,
              received,
              loaded u w.output,
              a.coded,
              a.addressed,
              text_eq_refl user_id,
            )
            refl,
        left,
      )
