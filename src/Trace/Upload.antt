-- ===== src/Trace/Upload.antt =====
-- Encrypting a file and sending it (src/crypto/FileAuthentication.cpp) through the steps of the client.
use mathlib.Core.Path.{subst}
use encrypted_backup_client.Base.{
  ◌≡◌, sym, ◌∙◌, ℕ, suc, zero, ◌+◌, ◌%◌, ◌^◌, ◌≤◌, refl, arith, ltb, length, Option, none, some,
  Text,
}
use encrypted_backup_client.Protocol.Types.{max_file_size}
use encrypted_backup_client.Protocol.RequestCode
use encrypted_backup_client.Protocol.Request.{
  Request, RequestHeader, init_request, set_request_code,
}
use encrypted_backup_client.Protocol.Request.Initial.{sized-IsPayload, set_request_code-IsHeader}
use encrypted_backup_client.Protocol.Request.Layout.{IsPayload}
use encrypted_backup_client.System.Platform.{Platform}
use encrypted_backup_client.System.World.{World}
use encrypted_backup_client.Crypto.Aes.{make_aes}
use encrypted_backup_client.Crypto.Upload.{
  Auth, sized, read_content, print_percent, get_chunk_size, chunk_request, next_percent,
  upload_request, encrypt_file, print_upload_progress, send_packets, send_encrypted_file_request,
}
use encrypted_backup_client.Trace.Steps.{IsRequestCode, here, drew, printed, one_step}
use encrypted_backup_client.Trace.Rules.{
  IsReal, ok-IsReal, err-IsReal, IsReal-if, result_of, Runs, RunsAuth, Runs-bind, Runs-lift,
  Runs-step, RunsAuth-lift, RunsAuth-keep_auth, RunsAuth-if,
}
use encrypted_backup_client.Trace.Results.{set_user_id-IsReal}
use encrypted_backup_client.Trace.Credentials.{open_file-Runs, load_user_id-Runs, load_aes_key-Runs}
use encrypted_backup_client.Trace.Requests.{
  IsClient, set_user_id-IsClient, chunk_request-IsRequest, chunk_request-coded,
}
use encrypted_backup_client.Trace.Session.{serving, Moves}
use encrypted_backup_client.Trace.Talks.{
  TalksAuth, Talks-bind, Talks-still, Talks-RunsAuth, Talks-keep_auth, send_request-Talks,
}

sized-IsReal : (file_name : Text) (size : Option ℕ) → IsReal (sized file_name size)
sized-IsReal file_name none = λ e. cc
sized-IsReal file_name (some size) = IsReal-if (ltb max_file_size size) (err-IsReal _ tt) ok-IsReal

read_content-IsReal :
    (file_name content : Text) (size : ℕ) → IsReal (read_content file_name content size)
read_content-IsReal file_name content size =
    IsReal-if (ltb (length content) size) (err-IsReal _ tt) ok-IsReal

make_aes-IsReal : (key : Option Text) → IsReal (make_aes key)
unfolding make_aes
make_aes-IsReal none = λ e. cc
make_aes-IsReal (some key) = λ e. ground arith

get_chunk_size_small : (file_size : ℕ) → get_chunk_size file_size ≤ 2 ^ 16
unfolding get_chunk_size
get_chunk_size_small file_size = ground arith

-- The request before the loop.
upload_request-IsClient :
    (header : RequestHeader) (file_name : Text) (file_size total : ℕ)
    → IsClient header
    → IsClient (upload_request header file_name file_size total).header
unfolding upload_request set_request_code
upload_request-IsClient header file_name file_size total v = record {
  valid = set_request_code-IsHeader RequestCode.create_backup header v.valid (omega arith);
  version = v.version;
}

upload_request-coded :
    (header : RequestHeader) (file_name : Text) (file_size total : ℕ)
    → (upload_request header file_name file_size total).header.request_code
      ≡ RequestCode.create_backup
unfolding upload_request set_request_code
upload_request-coded header file_name file_size total = refl

upload_request-IsPayload :
    (header : RequestHeader) (file_name : Text) (file_size total : ℕ)
    → IsPayload (upload_request header file_name file_size total).payload
unfolding upload_request init_request
upload_request-IsPayload header file_name file_size total =
    sized-IsPayload file_name (file_size % 2 ^ 32) (total % 2 ^ 16) (omega arith) (omega arith)

module _ (P : Platform) where
  encrypt_file-Runs :
      (file_path file_name : Text) (w : World P) → Runs w (encrypt_file P file_path file_name w)
  unfolding encrypt_file
  encrypt_file-Runs file_path file_name w = Runs-bind (open_file-Runs P _ _ w) (λ file v _.
      Runs-bind (Runs-lift (sized-IsReal file_name file.end_position)) (λ size v _.
        Runs-bind (Runs-lift (read_content-IsReal file_name file.content size)) (λ content v _.
          Runs-bind (load_aes_key-Runs P _ v) (λ key u _.
            Runs-bind (Runs-lift (make_aes-IsReal (some key)))
              (λ aes t _. Runs-step ok-IsReal (drew _ refl))))))

  print_percent-Runs :
      (printed_percent : ℕ) (shown : Option ℕ) (s : Auth P)
      → RunsAuth s (print_percent P printed_percent shown s)
  print_percent-Runs printed_percent none s = RunsAuth-lift ok-IsReal
  print_percent-Runs printed_percent (some percent) s = record {
    real = ok-IsReal;
    reached = one_step (printed _ refl);
  }

  print_upload_progress-Runs :
      (packet total printed_percent : ℕ) (s : Auth P)
      → RunsAuth s (print_upload_progress P packet total printed_percent s)
  unfolding print_upload_progress
  print_upload_progress-Runs packet total printed_percent s =
      RunsAuth-if s.crc_error (λ _. RunsAuth-lift ok-IsReal)
        (λ _. print_percent-Runs printed_percent (next_percent packet total printed_percent) s)

  send_packets-Talks :
      (encrypted_file : Text) (c total left packet : ℕ) (r : Request) (printed_percent k : ℕ)
      (s : Auth P)
      → c ≤ 2 ^ 16
      → IsClient r.header
      → r.header.request_code ≡ RequestCode.create_backup
      → IsPayload r.payload
      → TalksAuth
          (serving k)
          (serving k)
          s
          (send_packets P encrypted_file c total left packet r printed_percent s)
  unfolding send_packets
  send_packets-Talks encrypted_file c total zero packet r n k s small v coded p =
      Talks-RunsAuth (RunsAuth-lift ok-IsReal)
  send_packets-Talks encrypted_file c total (suc left) packet r n k s small v coded p =
      let request = chunk_request encrypted_file c r packet in
      let code = subst IsRequestCode (sym coded) IsRequestCode.create_backup in
      let sent = chunk_request-IsRequest P.host.order encrypted_file c r packet small v code p in
      let same = chunk_request-coded encrypted_file c r packet ∙ coded in
      Talks-bind (Talks-RunsAuth (print_upload_progress-Runs packet total n s)) (λ m t _.
        Talks-bind
          (Talks-keep_auth t (
            send_request-Talks P (serving k) (serving k) RequestCode.create_backup request t.world
              sent same Moves.uploads (λ serves. serves)))
          (λ _ u _.
            send_packets-Talks encrypted_file c total left (packet + 1) request m k u small
              (record { valid = sent.header_valid; version = sent.versioned }) same
              sent.payload_valid))

  pub send_encrypted_file_request-Talks :
      (file_path file_name : Text) (k : ℕ) (s : Auth P)
      → TalksAuth (serving k) (serving k) s (send_encrypted_file_request P file_path file_name s)
  unfolding send_encrypted_file_request
  send_encrypted_file_request-Talks file_path file_name k s =
      Talks-bind
        (Talks-RunsAuth (RunsAuth-keep_auth s (encrypt_file-Runs file_path file_name s.world)))
        (λ e t _.
          Talks-bind (Talks-RunsAuth (RunsAuth-keep_auth t (load_user_id-Runs P _ t.world)))
            (λ user_id u _.
              Talks-bind (Talks-RunsAuth (RunsAuth-lift (set_user_id-IsReal user_id _)))
                (λ header x set.
                  let v =
                    upload_request-IsClient header file_name e.file_size _
                      (set_user_id-IsClient user_id header (result_of set)) in
                  Talks-bind
                    (send_packets-Talks e.encrypted_file _ _ _ 1 _ 0 k x
                      (get_chunk_size_small e.file_size) v
                      (upload_request-coded header file_name e.file_size _)
                      (upload_request-IsPayload header file_name e.file_size _))
                    (λ last y _. Talks-still ok-IsReal here))))
