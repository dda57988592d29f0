-- ===== src/Tests/Upload.antt =====
-- Uploads in memory: one packet, several packets, verdicts, retries and a list of files.
use encrypted_backup_client.Crypto.Aes.{encrypt, make_aes}
use encrypted_backup_client.Base.{
  text_eq, ℕ, ◌+◌, ◌-◌, ◌/◌, ◌≡◌, ◌↔◌, refl, true, false, List, [], ◌∷◌, ◌++◌, length,
  length-replicate, replicate, arith, Text, text, ok,
}
use encrypted_backup_client.Core.Communication.{receive_response, read_exactly, read_payload}
use encrypted_backup_client.Protocol.Response.{
  deserialize, deserialize_payload, read_binary_field, validate_available_bytes, copy_bytes,
  copy_aes_key, get_user_id, Response,
}
use encrypted_backup_client.Protocol.Bytes.{be_bytes, be_bytes_acc, object_value, from_le, little}
use encrypted_backup_client.Utils.Encoding.{
  bytes_to_hex, hex_stream, put_byte, nibble, digits_value, hex_byte, hex_bytes, hex_digit,
  hex_string_to_byte_array, is_space, magnitude, stoul, strip_prefix,
}
use encrypted_backup_client.Crypto.Backup.{
  compare_upload, check_upload, accept_upload, backup_file, backup_files,
  verify_upload_crc_response,
}
use encrypted_backup_client.Protocol.Request.{RequestHeader, init_header, init_request, set_user_id}
use encrypted_backup_client.Protocol.Response.RoundTrip.{write_response}
use encrypted_backup_client.System.World.{World, Line, join_path}
use encrypted_backup_client.System.Files.{cl_info_file, lines, open_file}
use encrypted_backup_client.Registration.Credentials.{
  load_user_id, load_aes_key, open_input_file, read_required_line,
}
use encrypted_backup_client.Crypto.Upload.{
  Auth, Encrypted, encrypt_file, get_chunk_size, upload_request, send_encrypted_file_request,
}
use encrypted_backup_client.Crypto.Upload.Chunks.{
  requests, joined_data, last_request, joined_data-requests,
}
use encrypted_backup_client.Crypto.Upload.Packets.{ArePackets, upload_requests-ArePackets}
use encrypted_backup_client.Crypto.Upload.Sending.{send_encrypted_file_request-sent, wire}
use encrypted_backup_client.Crypto.Backup.Files.{
  IsNoClientException, backup_files-IsNoClientException,
}
use encrypted_backup_client.Crypto.Backup.Retry.{Ended, backup_file-iff-Ended}
use encrypted_backup_client.Crypto.Backup.Verdict.{IsVerdict, verify_upload_crc_response-IsVerdict}
use encrypted_backup_client.Tests.Machine.{
  machine, machine_sink, auth, world, user_id, registered_files,
}

abbrev pub id_bytes : Text
id_bytes = replicate 16 17

-- A response of the server to the client of the tests.
abbrev pub answer : ℕ → ℕ → ℕ → Response
answer code size checksum = record {
  header = record { version = 3; response_code = code; payload_size = 279 };
  payload = record {
    user_id = id_bytes;
    encrypted_aes_key = [];
    encrypted_file_size = size;
    file_name = replicate 255 0;
    checksum = checksum;
  };
}

abbrev pub client : Text → Auth machine
client incoming = auth (world registered_files incoming [])

-- "some notes" is encrypted to 32 bytes, and its bytes add up to 1021.
abbrev pub notes : Encrypted
notes = record {
  encrypted_file = replicate 16 7 ++ (replicate 6 6 ++ text "some notes");
  file_size = 10;
  file_data = text "some notes";
}

abbrev pub id_header : RequestHeader
id_header = record { user_id = id_bytes; version = 3; request_code = 0; payload_size = 0 }

abbrev after_encrypting : World machine
after_encrypting = record (client []).world { random = 8 }

encrypted :
    encrypt_file machine (text "d/notes.txt") (text "notes.txt") (client []).world
    ≡ (ok notes, after_encrypting)
unfolding encrypt_file text open_file text_eq join_path load_aes_key open_input_file
    read_required_line lines make_aes encrypt
encrypted = refl

loaded : load_user_id machine cl_info_file after_encrypting ≡ (ok user_id, after_encrypting)
unfolding load_user_id open_input_file open_file text_eq join_path text read_required_line lines
loaded = refl

pub header_set : set_user_id user_id init_header ≡ ok id_header
unfolding set_user_id init_header hex_string_to_byte_array hex_bytes hex_byte stoul is_space
    magnitude digits_value strip_prefix hex_digit
header_set = refl

send_encrypted_file_request-sent_example :
    let c = get_chunk_size 10 in
    let total = (length notes.encrypted_file + c - 1) / c in
    let r = upload_request id_header (text "notes.txt") 10 total in
    (t : machine.Socket) × (out : List Line) × (send_encrypted_file_request machine
        (text "d/notes.txt")
        (text "notes.txt")
        (client [])
      ≡ (
        ok (text "some notes"),
        record {
          world = record after_encrypting { socket = t; output = out };
          encrypted_file_size =
              (last_request notes.encrypted_file c total 1 r).payload.encrypted_chunk_size;
          crc_error = false;
        },
      ))
    × (t.outgoing ≡ wire little (requests notes.encrypted_file c total 1 r))
send_encrypted_file_request-sent_example =
    send_encrypted_file_request-sent machine machine_sink (text "d/notes.txt") (text "notes.txt")
      user_id notes id_header (client []) after_encrypting encrypted loaded header_set

-- Three packets of 4 bytes for 10 bytes.
joined_data-requests_example :
    joined_data
      (requests (text "some notes") 4 ((length (text "some notes") + 4 - 1) / 4) 1 init_request)
    ≡ text "some notes"
joined_data-requests_example = joined_data-requests (text "some notes") 4 init_request (omega arith)

-- A file of 10000 bytes takes three packets.
abbrev long_file : Text
long_file = replicate 10016 5

abbrev long_total : ℕ
long_total = (length long_file + get_chunk_size 10000 - 1) / get_chunk_size 10000

upload_requests-ArePackets_example : ArePackets little 10000 long_total 1 (
    requests long_file
      (get_chunk_size 10000)
      long_total
      1
      (upload_request id_header (text "notes.txt") 10000 long_total))
upload_requests-ArePackets_example =
    upload_requests-ArePackets little long_file (text "notes.txt") user_id id_header 10000
      header_set (omega arith) (omega (arith, length-replicate {A = ℕ} 10016 5))

-- The server confirms 32 bytes and the checksum.
abbrev confirming : Auth machine
confirming = record (client (write_response (answer 220 32 1021) [])) { encrypted_file_size = 32 }

confirmed :
    verify_upload_crc_response machine (text "some notes") confirming
    ≡ (ok true, (verify_upload_crc_response machine (text "some notes") confirming).1)
unfolding verify_upload_crc_response compare_upload check_upload accept_upload receive_response
    read_exactly read_payload deserialize deserialize_payload read_binary_field
    validate_available_bytes copy_bytes copy_aes_key write_response be_bytes be_bytes_acc
    object_value from_le get_user_id bytes_to_hex hex_stream put_byte nibble load_user_id
    open_input_file read_required_line open_file lines join_path text text_eq
confirmed = refl

verify_upload_crc_response-IsVerdict_example :
    IsVerdict machine
      (text "some notes")
      confirming
      ((verify_upload_crc_response machine (text "some notes") confirming).1)
      true
verify_upload_crc_response-IsVerdict_example =
    verify_upload_crc_response-IsVerdict machine (text "some notes") confirming
      ((verify_upload_crc_response machine (text "some notes") confirming).1) true confirmed

-- The first upload is answered with a wrong checksum, the second one is verified.
abbrev retrying : Auth machine
retrying = client (
    write_response (answer 220 32 1)
      (write_response (answer 220 32 1021) (write_response (answer 230 0 0) [])))

backup_file-iff-Ended_example :
    let u = (backup_file machine (text "d/notes.txt") (text "notes.txt") retrying).1 in
    (backup_file machine (text "d/notes.txt") (text "notes.txt") retrying ≡ (ok tt, u))
    ↔ Ended machine (text "d/notes.txt") (text "notes.txt") retrying u
backup_file-iff-Ended_example =
    backup_file-iff-Ended machine (text "d/notes.txt") (text "notes.txt") retrying
      ((backup_file machine (text "d/notes.txt") (text "notes.txt") retrying).1)

-- A name with a blank, a missing file, and a file that the server rejects as too large.
backup_files-IsNoClientException_example :
    IsNoClientException
      (backup_files machine
        (text "d")
        (text "no tes" ∷ text "none" ∷ text "notes.txt" ∷ [])
        (client (write_response (answer 221 0 0) []))).0
backup_files-IsNoClientException_example =
    backup_files-IsNoClientException machine (text "d")
      (text "no tes" ∷ text "none" ∷ text "notes.txt" ∷ [])
      (client (write_response (answer 221 0 0) []))
