-- ===== src/Tests/Registration.antt =====
-- Registration, the key exchange and the other requests in memory.
use encrypted_backup_client.Registration.Flow.{prompt_valid_username}
use encrypted_backup_client.Registration.Flow.Prompt.{IsPrompted, prompt_valid_username-IsPrompted}
use encrypted_backup_client.Base.{
  ◌≢◌, suc, ℕ, ◌+◌, ◌≡◌, refl, false, [], ◌∷◌, ◌++◌, length, All, All-replicate, arith, Text, text,
  ok, replicate, err, undefined_read, traced_exception,
}
use encrypted_backup_client.Registration.KeyExchange.Saved.{IsOneLine}
use encrypted_backup_client.Utils.Encoding.{is_space}
use encrypted_backup_client.Protocol.Bytes.{little}
use encrypted_backup_client.Protocol.RequestCode
use encrypted_backup_client.Protocol.Request.{init_header, init_payload, serialize}
use encrypted_backup_client.Protocol.Request.Initial.{init_header-IsHeader, init_payload-IsPayload}
use encrypted_backup_client.System.World.{World}
use encrypted_backup_client.System.Files.{cl_info_file}
use encrypted_backup_client.Registration.KeyExchange.{exchange_request, decrypt_base64}
use encrypted_backup_client.Registration.KeyExchange.Key.{decrypt_base64_terminated}
use encrypted_backup_client.Registration.Flow.Stored.{registered_world}
use encrypted_backup_client.Crypto.Backup.{crc_status_request}
use encrypted_backup_client.Core.Client.{handle_registration, disconnect_request}
use encrypted_backup_client.Core.Client.Requests.{length-serialize_declared}
use encrypted_backup_client.Core.Client.Startup.{handle_registration_half_registered}
use encrypted_backup_client.Crypto.Rsa
use encrypted_backup_client.Tests.Machine.{machine, machine_trims, world, no_files, user_id}

-- A new client whose user types a short name, a name with a blank, and a good name.
abbrev new_client : World machine
new_client = world no_files [] (text "al\nbob&co alice\n")

abbrev alice : Text
alice = b'a' ∷ b'l' ∷ b'i' ∷ b'c' ∷ b'e' ∷ []

alice_whole : All (λ c. is_space c ≡ false) alice
unfolding is_space
alice_whole = (refl, (refl, (refl, (refl, (refl, tt)))))

user_id_whole : All (λ c. is_space c ≡ false) user_id
unfolding is_space
user_id_whole = All-replicate {A = ℕ} (λ c. is_space c ≡ false) 32 b'1' refl

prompt_valid_username-IsPrompted_example :
    IsPrompted (prompt_valid_username machine (suc (length new_client.input)) new_client).0
prompt_valid_username-IsPrompted_example = prompt_valid_username-IsPrompted machine new_client

handle_registration_half_registered_example :
    let v = registered_world new_client alice user_id in
    handle_registration machine v
    ≡ (err (traced_exception (text "Private key not found in " ++ cl_info_file)), v)
handle_registration_half_registered_example =
    handle_registration_half_registered machine machine_trims new_client alice user_id alice_whole
      user_id_whole

length-serialize_declared_example :
    let exchange = exchange_request init_header RequestCode.registration init_payload in
    let status = crc_status_request init_header (text "notes.txt") RequestCode.registration in
    (length (serialize little exchange) ≡ 23 + exchange.header.payload_size)
    × (length (serialize little status) ≡ 23 + status.header.payload_size)
    × (length (serialize little disconnect_request)
        ≡ 23 + disconnect_request.header.payload_size + 8)
unfolding init_payload
length-serialize_declared_example =
    length-serialize_declared little init_header init_payload (text "notes.txt")
      RequestCode.registration init_header-IsHeader init_payload-IsPayload refl (omega arith)

-- A key of 4 letters, and the same with a zero byte and more behind it.
decrypt_base64_terminated_example :
    (decrypt_base64 machine (text "key") alice ≡ err undefined_read)
    × (decrypt_base64 machine (text "key") (alice ++ (0 ∷ 1 ∷ 2 ∷ [])) ≡ ok alice)
unfolding Rsa.decrypt_base64
decrypt_base64_terminated_example =
    decrypt_base64_terminated machine (text "key") alice (1 ∷ 2 ∷ []) (
      λ e. ground arith,
      (λ e. ground arith, (λ e. ground arith, (λ e. ground arith, (λ e. ground arith, tt)))),
    )

-- A key of 32 letters, which is one line.
abbrev pub key_tail : Text
key_tail = replicate 31 b'k'

abbrev pub key_line : IsOneLine machine (b'k' ∷ key_tail)
key_line = record {
  line = b'k' ∷ key_tail;
  encoded = refl;
  unbroken = All-replicate {A = ℕ} (λ c. c ≢ 10) 32 b'k' (λ e. ground arith);
  trimmed = refl;
  decoded = refl;
}
