-- ===== src/Crypto/Upload.antt =====
-- Encrypting a file and sending it in chunks: the first half of src/crypto/FileAuthentication.cpp.
pub mod Chunks
pub mod Packets
pub mod Sending
pub mod Encryption
pub mod Moved
pub mod Receipt
pub mod Received
use encrypted_backup_client.Crypto.Buffer.{Buffer, null_buffer, buffer_of}
use encrypted_backup_client.Base.{
  ℕ, zero, suc, ◌+◌, ◌-◌, ◌*◌, ◌/◌, ◌%◌, ◌^◌, min, Bool, true, false, not, ◌||◌, Option, none, some,
  ◌++◌, ltb, leb, ◌==◌, if◌then◌else◌, length, take, slice, Text, text, to_string, Result, ok, err,
  client_exception, traced_exception,
}
use encrypted_backup_client.Protocol.Types.{username_len, rsa_key_len, file_name_len, max_file_size}
use encrypted_backup_client.Protocol.Sizeof
use encrypted_backup_client.Protocol.RequestCode
use encrypted_backup_client.Protocol.Request.{
  Request, RequestHeader, RequestPayload, init_header, init_request, set_user_id, set_request_code,
  set_payload_size, set_file_size, set_file_name, set_total_packets, set_packet_number,
  set_encrypted_chunk_size, set_encrypted_chunk_data,
}
use encrypted_backup_client.System.State.{M, ◌>>=◌, ◌>>◌, return, lift, update, read_state}
use encrypted_backup_client.System.Platform.{Platform}
use encrypted_backup_client.System.World.{World, StoredFile, upload_progress, print}
use encrypted_backup_client.System.Files.{open_file, cl_info_file, aes_key_file}
use encrypted_backup_client.Core.Communication.{send_request}
use encrypted_backup_client.Registration.Credentials.{load_user_id, load_aes_key}
use encrypted_backup_client.Crypto.Aes.{make_aes, encrypt_buffer}

abbrev pub one_mib : ℕ
one_mib = 1024 * 1024

abbrev pub small_chunk_size : ℕ
small_chunk_size = 4 * 1024

abbrev pub large_chunk_size : ℕ
large_chunk_size = 64 * 1024

abbrev pub progress_step_percent : ℕ
progress_step_percent = 10

abbrev pub full_percent : ℕ
full_percent = 100

-- The members of `FileAuthentication`, with the world that its manager talks to.
pub record Auth (P : Platform) : Type 0 where
  pub world : World P
  pub encrypted_file_size : ℕ
  pub crc_error : Bool

abbrev pub keep_auth : {P : Platform} {A : Type 0} → Auth P → Result A × World P → Result A × Auth P
keep_auth s (r, w) = (r, record s { world = w })

abbrev pub on_world : {P : Platform} {A : Type 0} → M (World P) A → M (Auth P) A
on_world m s = keep_auth s (m s.world)

abbrev pub get_file_backup_payload_size : ℕ
get_file_backup_payload_size =
    username_len + rsa_key_len + Sizeof.enc_chunk_size + Sizeof.file_size + Sizeof.packet_num
    + Sizeof.total_packets + file_name_len

unfoldable pub get_chunk_size : ℕ → ℕ
get_chunk_size file_size = if ltb file_size one_mib then small_chunk_size else large_chunk_size

-- `tellg` at the end, the size limit, and the read of the whole file.
abbrev pub sized : Text → Option ℕ → Result ℕ
sized file_name none =
    err (traced_exception (text "Failed to determine file size for " ++ file_name))
sized file_name (some size) =
    if ltb max_file_size size
    then err (
        client_exception (
          text "File too large. The maximum allowed file size is "
          ++ (to_string max_file_size ++ text " bytes.")))
    else ok size

abbrev pub read_content : Text → Text → ℕ → Result Text
read_content file_name content size =
    if ltb (length content) size
    then err (traced_exception (text "Failed to read full file content from " ++ file_name))
    else ok (take size content)

-- What `encrypt_file` hands back: the result and its two output parameters.
pub record Encrypted : Type 0 where
  pub encrypted_file : Text
  pub file_size : ℕ
  pub file_data : Text

-- `request.get_header()` and `request.get_payload()` are changed in place.
abbrev pub on_header : (RequestHeader → RequestHeader) → Request → Request
on_header f r = record r { header = f r.header }

abbrev pub on_payload : (RequestPayload → RequestPayload) → Request → Request
on_payload f r = record r { payload = f r.payload }

-- The request of one packet: the members that the loop body sets.
unfoldable pub chunk_request : Text → ℕ → Request → ℕ → Request
chunk_request encrypted_file chunk_size request packet =
    let start_offset = (packet - 1) * chunk_size in
    let current_chunk_size = min chunk_size (length encrypted_file - start_offset) in
    on_header
      (set_payload_size ((get_file_backup_payload_size + current_chunk_size % 2 ^ 32) % 2 ^ 32))
      (on_payload
        (λ p. set_encrypted_chunk_data (slice start_offset current_chunk_size encrypted_file) (
          set_encrypted_chunk_size (current_chunk_size % 2 ^ 32)
            (set_packet_number (packet % 2 ^ 16) p)))
        request)

-- The percentage that the loop prints, if it prints one.
unfoldable pub next_percent : ℕ → ℕ → ℕ → Option ℕ
next_percent packet total_packets printed_percent =
    let percent = full_percent * packet / total_packets in
    if leb (printed_percent + progress_step_percent) percent || packet == total_packets
    then some (
        if packet == total_packets
        then full_percent
        else percent / progress_step_percent * progress_step_percent)
    else none

-- The request before the loop, for a header that has the user ID.
unfoldable pub upload_request : RequestHeader → Text → ℕ → ℕ → Request
upload_request header file_name file_size total_packets =
    on_payload
      (λ p.
        set_total_packets (total_packets % 2 ^ 16)
          (set_file_name file_name (set_file_size (file_size % 2 ^ 32) p)))
      (record init_request { header = set_request_code RequestCode.create_backup header })

module _ (P : Platform) where
  abbrev draw : Result Text × P.Random → M (World P) Text
  draw (cipher, random) w = (cipher, record w { random = random })

  unfoldable pub encrypt_file : Text → Text → M (World P) Encrypted
  encrypt_file file_path file_name = do
    file_stream ← open_file file_path file_name
    file_size ← lift (sized file_name file_stream.end_position)
    file_data ← lift (read_content file_name file_stream.content file_size)
    aes_key ← load_aes_key P aes_key_file
    aes ← lift (make_aes (some aes_key))
    encrypted_file ← (λ w. draw (encrypt_buffer P aes (buffer_of file_data) w.random) w)
    return
        (record { encrypted_file = encrypted_file; file_size = file_size; file_data = file_data })

  abbrev pub print_percent : ℕ → Option ℕ → M (Auth P) ℕ
  print_percent printed_percent none = return printed_percent
  print_percent printed_percent (some percent) = do
    on_world (print (upload_progress percent))
    return percent

  -- After a CRC error no progress is printed.
  unfoldable pub print_upload_progress : ℕ → ℕ → ℕ → M (Auth P) ℕ
  print_upload_progress packet total_packets printed_percent s =
      if s.crc_error
      then (ok printed_percent, s)
      else print_percent printed_percent (next_percent packet total_packets printed_percent) s

  -- The loop from `packet` on, with the packets that are left; it hands back the request.
  unfoldable pub send_packets : Text → ℕ → ℕ → ℕ → ℕ → Request → ℕ → M (Auth P) Request
  send_packets encrypted_file chunk_size total_packets zero packet request printed_percent =
      return request
  send_packets encrypted_file chunk_size total_packets (suc left) packet request printed_percent =
      let sent = chunk_request encrypted_file chunk_size request packet in
      do
        printed ← print_upload_progress packet total_packets printed_percent
        on_world (send_request P sent)
        send_packets encrypted_file chunk_size total_packets left (packet + 1) sent printed

  -- `send_encrypted_file_request`; the result is the output parameter `file_data`.
  unfoldable pub send_encrypted_file_request : Text → Text → M (Auth P) Text
  send_encrypted_file_request file_path file_name = do
    encrypted ← on_world (encrypt_file file_path file_name)
    user_id ← on_world (load_user_id P cl_info_file)
    header ← lift (set_user_id user_id init_header)
    let chunk_size = get_chunk_size encrypted.file_size
    let total_packets = (length encrypted.encrypted_file + chunk_size - 1) / chunk_size
    let request = upload_request header file_name encrypted.file_size total_packets
    last ← send_packets encrypted.encrypted_file chunk_size total_packets total_packets 1 request 0
    update (λ s. record s { encrypted_file_size = last.payload.encrypted_chunk_size })
    return encrypted.file_data
