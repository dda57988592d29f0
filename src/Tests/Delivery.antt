-- ===== src/Tests/Delivery.antt =====
-- A backup that the server confirms, in memory.
use encrypted_backup_client.Base.{
  Text, ◌++◌, ◌%◌, some, replicate, length-append, ℕ, ◌+◌, ◌-◌, ◌/◌, ◌^◌, ◌<◌, ◌≡◌, refl, false, [],
  length, length-replicate, All-replicate, arith, text, text_eq, ok,
}
use encrypted_backup_client.Utils.Encoding.{bytes_to_hex, hex_stream, put_byte, nibble}
use encrypted_backup_client.Protocol.Bytes.{little_host-IsNetworkOrder}
use encrypted_backup_client.Protocol.Request.{set_encrypted_chunk_data, set_encrypted_chunk_size}
use encrypted_backup_client.Protocol.Response.{get_user_id}
use encrypted_backup_client.Protocol.Response.RoundTrip.{IsResponse, write_response}
use encrypted_backup_client.System.World.{World, join_path}
use encrypted_backup_client.System.Files.{aes_key_file, cl_info_file, lines, open_file}
use encrypted_backup_client.Registration.Credentials.{
  load_user_id, load_aes_key, open_input_file, read_required_line,
}
use encrypted_backup_client.Crypto.Aes.{encrypt, decrypt, make_aes}
use encrypted_backup_client.Crypto.Upload.{
  Auth, send_encrypted_file_request, encrypt_file, get_chunk_size, upload_request, chunk_request,
}
use encrypted_backup_client.Crypto.Upload.Chunks.{last_request}
use encrypted_backup_client.Crypto.Upload.Receipt.{receive_upload}
use encrypted_backup_client.Crypto.Upload.Received.{IsPadded, send_encrypted_file_request-received}
use encrypted_backup_client.Crypto.Backup.{backup_file}
use encrypted_backup_client.Crypto.Backup.Answers.{IsDuplex, IsAnswer}
use encrypted_backup_client.Crypto.Backup.Delivery.{backup_file-delivered}
use encrypted_backup_client.Tests.Machine.{machine, machine_stream, machine_sink, user_id}
use encrypted_backup_client.Tests.Crypto.{machine-IsCipher}
use encrypted_backup_client.Tests.Upload.{answer, client, notes, id_header, header_set}

abbrev pub machine_duplex : IsDuplex machine
machine_duplex = record {
  stream = machine_stream;
  sink = machine_sink;
  asio_write-pending = λ bytes s. refl;
}

answer-IsResponse :
    (code size checksum : ℕ)
    → code < 2 ^ 16
    → size < 2 ^ 32
    → checksum < 2 ^ 32
    → IsResponse (answer code size checksum)
answer-IsResponse code size checksum c s k = record {
  version_range = omega arith;
  code_range = c;
  size_range = omega arith;
  size_counts = refl;
  user_id_size = length-replicate {A = ℕ} 16 17;
  user_id_bytes = All-replicate {A = ℕ} (λ b. b < 256) 16 17 (omega arith);
  key_bytes = tt;
  file_size_range = s;
  file_name_size = length-replicate {A = ℕ} 255 0;
  file_name_bytes = All-replicate {A = ℕ} (λ b. b < 256) 255 0 (omega arith);
  checksum_range = k;
}

answer-addressed :
    (code size checksum : ℕ) → get_user_id (answer code size checksum).payload ≡ ok user_id
unfolding get_user_id bytes_to_hex hex_stream put_byte nibble
answer-addressed code size checksum = refl

pub answer-IsAnswer :
    (code size checksum : ℕ)
    → code < 2 ^ 16
    → size < 2 ^ 32
    → checksum < 2 ^ 32
    → IsAnswer user_id code (answer code size checksum)
answer-IsAnswer code size checksum c s k = record {
  valid = answer-IsResponse code size checksum c s k;
  coded = refl;
  addressed = answer-addressed code size checksum;
}

-- The answers to the upload of 32 bytes and to the report are on the way.
abbrev delivering : Auth machine
delivering = client (write_response (answer 220 32 1021) (write_response (answer 230 0 0) []))

abbrev encrypted_world : World machine
encrypted_world = record delivering.world { random = 8 }

encrypted :
    encrypt_file machine (text "d/notes.txt") (text "notes.txt") delivering.world
    ≡ (ok notes, encrypted_world)
unfolding encrypt_file text open_file text_eq join_path load_aes_key open_input_file
    read_required_line lines make_aes encrypt
encrypted = refl

loaded : load_user_id machine cl_info_file encrypted_world ≡ (ok user_id, encrypted_world)
unfolding load_user_id open_input_file open_file text_eq join_path text read_required_line lines
loaded = refl

summed : 1021 ≡ machine.crc32 notes.file_data
unfolding text
summed = refl

sized :
    let c = get_chunk_size 10 in
    let total = (length notes.encrypted_file + c - 1) / c in
    32
    ≡ (last_request notes.encrypted_file c total 1
        (upload_request id_header (text "notes.txt") 10 total)).payload.encrypted_chunk_size
unfolding get_chunk_size last_request chunk_request set_encrypted_chunk_data
    set_encrypted_chunk_size text
sized = refl

backup_file-delivered_example :
    (u : Auth machine) × (backup_file machine (text "d/notes.txt") (text "notes.txt") delivering
      ≡ (ok tt, u))
    × (u.world.socket.incoming ≡ [])
    × (u.crc_error ≡ false)
backup_file-delivered_example =
    backup_file-delivered machine machine_duplex little_host-IsNetworkOrder (text "d/notes.txt")
      (text "notes.txt") user_id notes id_header delivering encrypted_world (answer 220 32 1021)
      (answer 230 0 0) [] encrypted loaded header_set
      (answer-IsAnswer 220 32 1021 (omega arith) (omega arith) (omega arith)) summed sized
      (answer-IsAnswer 230 0 0 (omega arith) (omega arith) (omega arith)) tt refl

pub machine_pads : IsPadded machine
machine_pads = record {
  padded = λ key iv plain.
      let padding = 16 - length plain % 16 in
      let body = length-append (replicate (padding - 1) padding) plain in
      let count = length-replicate {A = ℕ} (padding - 1) padding in (omega arith, omega arith);
}

keyed :
    load_aes_key machine aes_key_file delivering.world ≡ (ok (replicate 32 b'k'), delivering.world)
unfolding load_aes_key open_input_file open_file text_eq join_path text read_required_line lines
keyed = refl

send_encrypted_file_request-received_example :
    (u : Auth machine) × (bytes : Text) × (encrypted_file : Text) × (send_encrypted_file_request
        machine
        (text "d/notes.txt")
        (text "notes.txt")
        delivering
      ≡ (ok notes.file_data, u))
    × (u.world.socket.outgoing ≡ encrypted_world.socket.outgoing ++ bytes)
    × (receive_upload machine.host.order (bytes ++ text "more")
        ≡ some (encrypted_file, text "more"))
    × (decrypt machine (record { key = replicate 32 b'k' }) (some encrypted_file)
        ≡ ok notes.file_data)
send_encrypted_file_request-received_example =
    send_encrypted_file_request-received machine machine_sink machine-IsCipher machine_pads
      (text "d/notes.txt") (text "notes.txt") user_id (replicate 32 b'k') (text "more") notes
      id_header delivering encrypted_world encrypted keyed loaded header_set
