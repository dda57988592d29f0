-- ===== src/Tests/Answered.antt =====
-- A registration and a re-registration that the server answers, in memory.
use encrypted_backup_client.Crypto.Buffer.{buffer_of}
use encrypted_backup_client.Base.{
  false, ℕ, suc, ◌^◌, ◌<◌, ◌≡◌, refl, [], ◌∷◌, ◌++◌, some, length, length-replicate, All-replicate,
  replicate, arith, Text, text, text_eq, ok,
}
use encrypted_backup_client.Utils.Encoding.{is_space, bytes_to_hex, hex_stream, put_byte, nibble}
use encrypted_backup_client.Utils.Validation.{
  is_valid_username, matches_validation_rules, regex_match, all_chars, is_name_char,
  is_alphanumeric,
}
use encrypted_backup_client.Protocol.Bytes.{little_host-IsNetworkOrder}
use encrypted_backup_client.Protocol.Fields.{c_string}
use encrypted_backup_client.Protocol.Response.{Response, get_user_id}
use encrypted_backup_client.Protocol.Response.RoundTrip.{IsResponse, write_response}
use encrypted_backup_client.System.World.{
  World, with_file, regular_file, username_prompt, registered, welcome_back, join_path,
}
use encrypted_backup_client.System.Files.{
  open_file, lines, get_client_info_path, get_private_key_path, get_aes_key_path,
}
use encrypted_backup_client.Crypto.Rsa
use encrypted_backup_client.Crypto.Backup.Answers.{IsAnswer}
use encrypted_backup_client.Registration.Credentials.{
  concat_lines, load_aes_key, open_input_file, read_required_line,
}
use encrypted_backup_client.Registration.Identity.{IsWord}
use encrypted_backup_client.Registration.Flow.{
  prompt_valid_username, cin_word, read_word, skip_blanks, split_word, client_registration,
  client_re_registration,
}
use encrypted_backup_client.Registration.Flow.Info.{info_content}
use encrypted_backup_client.Registration.Flow.Registered.{IsRegistered, IsWritable}
use encrypted_backup_client.Registration.Flow.Answered.{client_registration-answered}
use encrypted_backup_client.Registration.Flow.Returning.{IsEncoded, client_re_registration-answered}
use encrypted_backup_client.Tests.Machine.{
  auth, machine_sink, machine, machine_trims, world, no_files, user_id,
}
use encrypted_backup_client.Main.{main}
use encrypted_backup_client.Trace.Session.{Phase, fresh}
use encrypted_backup_client.Trace.Wire.{HasSent, main-HasSent}
use encrypted_backup_client.Tests.Main.{machine_tap}
use encrypted_backup_client.Crypto.Aes.{encrypt, decrypt, make_aes}
use encrypted_backup_client.Crypto.Upload.{Auth, encrypt_file, send_encrypted_file_request}
use encrypted_backup_client.Crypto.Upload.Receipt.{receive_upload}
use encrypted_backup_client.Core.Client.Keyed.{registered-received}
use encrypted_backup_client.Tests.Registration.{key_tail, key_line}
use encrypted_backup_client.Tests.Upload.{notes, id_header, header_set}
use encrypted_backup_client.Tests.Crypto.{machine-IsCipher, pair_key, machine_pair}
use encrypted_backup_client.Tests.Delivery.{machine_duplex, machine_pads}

-- The server's answer with the AES key "K": in Base64, with the newline, and ended by a zero byte.
abbrev key_answer : ℕ → Response
key_answer code = record {
  header = record { version = 3; response_code = code; payload_size = 282 };
  payload = record {
    user_id = replicate 16 17;
    encrypted_aes_key = b'K' ∷ 10 ∷ 0 ∷ [];
    encrypted_file_size = 0;
    file_name = replicate 255 0;
    checksum = 0;
  };
}

key_answer-IsResponse : (code : ℕ) → code < 2 ^ 16 → IsResponse (key_answer code)
key_answer-IsResponse code c = record {
  version_range = omega arith;
  code_range = c;
  size_range = omega arith;
  size_counts = refl;
  user_id_size = length-replicate {A = ℕ} 16 17;
  user_id_bytes = All-replicate {A = ℕ} (λ b. b < 256) 16 17 (omega arith);
  key_bytes = (omega arith, (omega arith, (omega arith, tt)));
  file_size_range = omega arith;
  file_name_size = length-replicate {A = ℕ} 255 0;
  file_name_bytes = All-replicate {A = ℕ} (λ b. b < 256) 255 0 (omega arith);
  checksum_range = omega arith;
}

key_answer-addressed : (code : ℕ) → get_user_id (key_answer code).payload ≡ ok user_id
unfolding get_user_id bytes_to_hex hex_stream put_byte nibble
key_answer-addressed code = refl

key_answer-IsAnswer : (code : ℕ) → code < 2 ^ 16 → IsAnswer user_id code (key_answer code)
key_answer-IsAnswer code c = record {
  valid = key_answer-IsResponse code c;
  coded = refl;
  addressed = key_answer-addressed code;
}

abbrev alice : Text
alice = b'a' ∷ b'l' ∷ b'i' ∷ b'c' ∷ b'e' ∷ []

-- Both answers are on the way when the user is asked for a name.
abbrev joining : World machine
joining =
    world no_files (write_response (key_answer 200) (write_response (key_answer 210) []))
      (text "alice")

abbrev prompted : World machine
prompted = record joining { input = []; output = username_prompt ∷ [] }

given : prompt_valid_username machine (suc (length joining.input)) joining ≡ (ok alice, prompted)
unfolding prompt_valid_username cin_word read_word skip_blanks split_word is_space text text_eq
    is_valid_username matches_validation_rules regex_match all_chars is_name_char is_alphanumeric
given = refl

writes : IsWritable prompted
writes = record { client_info = refl; private_key = refl; aes_key = refl }

drawn : Rsa.encrypt machine pair_key (buffer_of (b'K' ∷ [])) 7 ≡ (ok (b'K' ∷ []), 8)
unfolding Rsa.encrypt
drawn = refl

terminated : c_string (b'K' ∷ 10 ∷ 0 ∷ []) ≡ some (b'K' ∷ 10 ∷ [])
unfolding c_string
terminated = refl

client_registration-answered_example :
    (t : World machine) × (client_registration machine joining ≡ (ok tt, t))
    × IsRegistered t alice user_id pair_key (b'K' ∷ [])
    × (t.output ≡ registered alice ∷ prompted.output)
    × (t.socket.incoming ≡ [])
client_registration-answered_example =
    client_registration-answered machine machine_duplex little_host-IsNetworkOrder machine_trims
      alice user_id (b'K' ∷ []) (b'K' ∷ []) (key_answer 200) (key_answer 210) [] 8 7 8 joining
      prompted given writes (key_answer-IsAnswer 200 (omega arith))
      (key_answer-IsAnswer 210 (omega arith)) machine_pair refl drawn terminated tt refl

-- The whole client on this server, with a configuration: it registers, and the user leaves.
abbrev configured : World machine
configured = record joining {
  files = with_file no_files (text "/c/server_config.json") (some (regular_file (text "{}")));
}

main-HasSent_example :
    (q : Phase) × HasSent machine machine_tap fresh configured q (main machine configured).1
main-HasSent_example = main-HasSent machine machine_tap configured

-- The files that the registration of the private key left, and the answer to a re-registration.
abbrev returning : World machine
returning =
    world
      (with_file
        (with_file
          (with_file no_files (get_client_info_path prompted)
            (some (regular_file (info_content alice user_id (pair_key ++ (10 ∷ []))))))
          (get_private_key_path prompted) (some (regular_file (pair_key ++ (10 ∷ [])))))
        (get_aes_key_path prompted) (some (regular_file (b'J' ∷ 10 ∷ []))))
      (write_response (key_answer 205) []) []

returning-IsRegistered : IsRegistered returning alice user_id pair_key (b'J' ∷ [])
unfolding text text_eq join_path
returning-IsRegistered = record {
  info_stored = refl;
  private_key_stored = refl;
  aes_key_stored = refl;
}

alice-IsWord : IsWord alice
unfolding is_space
alice-IsWord = (refl, (refl, (refl, (refl, (refl, tt)))))

pair_key-IsEncoded : IsEncoded machine pair_key
unfolding lines concat_lines
pair_key-IsEncoded = record { first = 65; others = replicate 7 65; joined = refl; decoded = refl }

client_re_registration-answered_example :
    (t : World machine) × (client_re_registration machine returning ≡ (ok tt, t))
    × IsRegistered t alice user_id pair_key (b'K' ∷ [])
    × (t.output ≡ welcome_back alice ∷ [])
    × (t.socket.incoming ≡ [])
client_re_registration-answered_example =
    client_re_registration-answered machine machine_duplex little_host-IsNetworkOrder machine_trims
      alice user_id pair_key (b'J' ∷ []) (b'K' ∷ []) (b'K' ∷ []) pair_key (key_answer 205) [] 8 7 8
      returning returning-IsRegistered alice-IsWord pair_key-IsEncoded refl
      (key_answer-IsAnswer 205 (omega arith)) machine_pair refl drawn terminated tt refl

-- A registered client with the AES key of 32 letters and a file.
abbrev keyed_client : Auth machine
keyed_client = auth (record returning {
  files =
      with_file
        (with_file returning.files (get_aes_key_path returning)
          (some (regular_file (replicate 32 b'k' ++ (10 ∷ [])))))
        (text "/c/d/notes.txt") (some (regular_file (text "some notes")));
})

keyed_client-IsRegistered : IsRegistered keyed_client.world alice user_id pair_key (b'k' ∷ key_tail)
unfolding text text_eq join_path
keyed_client-IsRegistered = record {
  info_stored = refl;
  private_key_stored = refl;
  aes_key_stored = refl;
}

registered_file :
    encrypt_file machine (text "d/notes.txt") (text "notes.txt") keyed_client.world
    ≡ (ok notes, record keyed_client.world { random = 8 })
unfolding encrypt_file text open_file text_eq join_path load_aes_key open_input_file
    read_required_line lines make_aes encrypt
registered_file = refl

user_id-IsWord : IsWord user_id
unfolding is_space
user_id-IsWord = All-replicate {A = ℕ} (λ c. is_space c ≡ false) 32 b'1' refl

registered-received_example :
    (u : Auth machine) × (bytes : Text) × (encrypted_file : Text) × (send_encrypted_file_request
        machine
        (text "d/notes.txt")
        (text "notes.txt")
        keyed_client
      ≡ (ok notes.file_data, u))
    × (u.world.socket.outgoing ≡ keyed_client.world.socket.outgoing ++ bytes)
    × (receive_upload machine.host.order (bytes ++ []) ≡ some (encrypted_file, []))
    × (decrypt machine (record { key = b'k' ∷ key_tail }) (some encrypted_file)
        ≡ ok notes.file_data)
registered-received_example =
    registered-received machine machine_sink machine-IsCipher machine_pads machine_trims
      (text "d/notes.txt") (text "notes.txt") alice user_id pair_key [] b'k' key_tail notes
      id_header keyed_client (record keyed_client.world { random = 8 }) keyed_client-IsRegistered
      key_line alice-IsWord user_id-IsWord header_set registered_file
