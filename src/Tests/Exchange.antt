-- ===== src/Tests/Exchange.antt =====
-- A key exchange that is answered, and the debug output, in memory.
use encrypted_backup_client.Base.{
  ◌-◌, ◌≡◌, refl, some, [], ◌∷◌, drop, replicate, arith, Text, text, ok, text_eq,
}
use encrypted_backup_client.Utils.Encoding.{bytes_to_hex, hex_stream, put_byte, nibble}
use encrypted_backup_client.Protocol.ResponseCode
use encrypted_backup_client.Protocol.Response.{
  Response, deserialize, deserialize_payload, read_binary_field, validate_available_bytes,
  copy_bytes, copy_aes_key, get_user_id,
}
use encrypted_backup_client.Protocol.Response.RoundTrip.{write_response}
use encrypted_backup_client.Protocol.Formatting.{hexify, cout}
use encrypted_backup_client.Protocol.Formatting.Hexify.{
  strip_separators, separators, row_ends, hexify-bytes_to_hex,
}
use encrypted_backup_client.System.World.{World, join_path}
use encrypted_backup_client.Registration.KeyExchange.{
  handle_rsa_key_response, accept_exchange, process_exchange, accept_aes_key, decrypt_base64,
  validate_response_user_id, save_aes_key,
}
use encrypted_backup_client.Registration.KeyExchange.Accepted.{
  IsAccepted, handle_rsa_key_response-IsAccepted,
}
use encrypted_backup_client.Core.Communication.{receive_response, read_exactly, read_payload}
use encrypted_backup_client.Protocol.Bytes.{be_bytes, be_bytes_acc, object_value, from_le}
use encrypted_backup_client.Protocol.Fields.{c_string}
use encrypted_backup_client.System.Files.{lines, open_file, write_file}
use encrypted_backup_client.Registration.Credentials.{
  load_user_id, open_input_file, read_required_line,
}
use encrypted_backup_client.Crypto.Rsa
use encrypted_backup_client.Crypto.Rsa.{make_private}
use encrypted_backup_client.Tests.Machine.{machine, world, registered_files}

-- The server sends the AES key "K", with the NUL that ends it.
abbrev key_answer : Response
key_answer = record {
  header = record { version = 3; response_code = 210; payload_size = 281 };
  payload = record {
    user_id = replicate 16 17;
    encrypted_aes_key = b'K' ∷ 0 ∷ [];
    encrypted_file_size = 0;
    file_name = replicate 255 0;
    checksum = 0;
  };
}

abbrev answered : World machine
answered = world registered_files (write_response key_answer []) []

abbrev exchanged : World machine
exchanged =
    (handle_rsa_key_response machine ResponseCode.key_send_success (replicate 8 65) answered).1

accepted :
    handle_rsa_key_response machine ResponseCode.key_send_success (replicate 8 65) answered
    ≡ (ok tt, exchanged)
unfolding handle_rsa_key_response receive_response read_exactly write_response be_bytes be_bytes_acc
    read_payload object_value from_le deserialize validate_available_bytes read_binary_field
    deserialize_payload copy_bytes copy_aes_key accept_exchange validate_response_user_id
    load_user_id open_input_file open_file read_required_line lines join_path text text_eq
    get_user_id bytes_to_hex hex_stream put_byte nibble process_exchange accept_aes_key make_private
    decrypt_base64 c_string Rsa.decrypt_base64 Rsa.decrypt save_aes_key write_file
accepted = refl

handle_rsa_key_response-IsAccepted_example :
    IsAccepted machine ResponseCode.key_send_success (replicate 8 65) answered exchanged
handle_rsa_key_response-IsAccepted_example =
    handle_rsa_key_response-IsAccepted machine ResponseCode.key_send_success (replicate 8 65)
      answered exchanged accepted

hexify-bytes_to_hex_example :
    let buffer : Text = replicate 20 b'z' in
    (s : Text) × (hexify (some buffer) 1 19 ≡ ok (cout s))
    × (bytes_to_hex (some (drop 1 buffer)) (19 - 1) ≡ ok (strip_separators s))
    × (separators s ≡ row_ends 0 (19 - 1))
hexify-bytes_to_hex_example =
    hexify-bytes_to_hex (replicate 20 b'z') 1 19 (omega arith) (omega arith)
