-- ===== src/Tests/Batch.antt =====
-- The backup of two selected files, in memory.
use encrypted_backup_client.Base.{
  ◌++◌, ◌+◌, ◌↔◌, ℕ, replicate, ◌≡◌, refl, true, [], ◌∷◌, List, arith, text, text_eq, ok,
}
use encrypted_backup_client.Protocol.Bytes.{little_host-IsNetworkOrder}
use encrypted_backup_client.Protocol.Request.{set_encrypted_chunk_data, set_encrypted_chunk_size}
use encrypted_backup_client.Utils.Validation.{
  is_valid_filename, matches_validation_rules, regex_match, all_chars, is_name_char,
  is_alphanumeric,
}
use encrypted_backup_client.System.World.{join_path}
use encrypted_backup_client.System.Files.{cl_info_file, lines, open_file}
use encrypted_backup_client.Registration.Credentials.{
  load_user_id, load_aes_key, open_input_file, read_required_line,
}
use encrypted_backup_client.Crypto.Aes.{encrypt, make_aes}
use encrypted_backup_client.Crypto.Upload.{
  Auth, Encrypted, encrypt_file, get_chunk_size, chunk_request,
}
use encrypted_backup_client.Crypto.Upload.Chunks.{last_request}
use encrypted_backup_client.Crypto.Upload.Encryption.{IsEncryption, encrypt_file_iff}
use encrypted_backup_client.Crypto.Backup.{backup_files}
use encrypted_backup_client.Crypto.Backup.Batch.{
  Delivery, IsDelivery, answers, kept_size, backup_files-delivered,
}
use encrypted_backup_client.Tests.Machine.{machine, user_id}
use encrypted_backup_client.Tests.Upload.{answer, client, notes, id_header, header_set}
use encrypted_backup_client.Tests.Delivery.{machine_duplex, answer-IsAnswer}

-- The same text, encrypted when the random pool has the number `iv`.
abbrev sealed_notes : ℕ → Encrypted
sealed_notes iv = record notes {
  encrypted_file = replicate 16 iv ++ (replicate 6 6 ++ text "some notes");
}

abbrev notes_delivery : ℕ → Delivery machine
notes_delivery iv = record {
  file_name = text "notes.txt";
  encrypted = sealed_notes iv;
  random = iv + 1;
  confirmation = answer 220 32 1021;
  acknowledgment = answer 230 0 0;
}

-- The same file is selected twice, and all four answers are on the way.
abbrev two_files : List (Delivery machine)
two_files = notes_delivery 7 ∷ notes_delivery 8 ∷ []

abbrev busy : Auth machine
busy = client (answers two_files [])

encrypt_file_iff_example :
    (encrypt_file machine (join_path (text "d") (text "notes.txt")) (text "notes.txt") busy.world
      ≡ (ok (sealed_notes 7), record busy.world { random = 8 }))
    ↔ IsEncryption machine
        (join_path (text "d") (text "notes.txt"))
        (sealed_notes 7)
        busy.world
        (record busy.world { random = 8 })
encrypt_file_iff_example =
    encrypt_file_iff machine (join_path (text "d") (text "notes.txt")) (text "notes.txt")
      (sealed_notes 7) busy.world (record busy.world { random = 8 })

first_encrypted :
    encrypt_file machine (join_path (text "d") (text "notes.txt")) (text "notes.txt") busy.world
    ≡ (ok (sealed_notes 7), record busy.world { random = 8 })
unfolding encrypt_file text open_file text_eq join_path load_aes_key open_input_file
    read_required_line lines make_aes encrypt
first_encrypted = refl

second_encrypted :
    encrypt_file machine
      (join_path (text "d") (text "notes.txt"))
      (text "notes.txt")
      (record busy.world { random = 8 })
    ≡ (ok (sealed_notes 8), record busy.world { random = 9 })
unfolding encrypt_file text open_file text_eq join_path load_aes_key open_input_file
    read_required_line lines make_aes encrypt
second_encrypted = refl

loaded : load_user_id machine cl_info_file busy.world ≡ (ok user_id, busy.world)
unfolding load_user_id open_input_file open_file text_eq join_path text read_required_line lines
loaded = refl

summed : 1021 ≡ machine.crc32 notes.file_data
unfolding text
summed = refl

sized : (iv : ℕ) → 32 ≡ kept_size id_header (text "notes.txt") (sealed_notes iv)
unfolding get_chunk_size last_request chunk_request set_encrypted_chunk_data
    set_encrypted_chunk_size text
sized iv = refl

named : is_valid_filename (text "notes.txt") ≡ true
unfolding is_valid_filename text matches_validation_rules regex_match all_chars is_name_char
    is_alphanumeric
named = refl

notes-IsDelivery :
    (iv : ℕ)
    → encrypt_file machine
        (join_path (text "d") (text "notes.txt"))
        (text "notes.txt")
        (record busy.world { random = iv })
      ≡ (ok (sealed_notes iv), record busy.world { random = iv + 1 })
    → IsDelivery machine (text "d") user_id id_header busy.world iv (notes_delivery iv)
notes-IsDelivery iv done = record {
  named = named;
  encryption =
      (encrypt_file_iff machine (join_path (text "d") (text "notes.txt")) (text "notes.txt")
          (sealed_notes iv) (record busy.world { random = iv })
          (record busy.world { random = iv + 1 })).0
        done;
  confirms = answer-IsAnswer 220 32 1021 (omega arith) (omega arith) (omega arith);
  summed = summed;
  sized = sized iv;
  acknowledges = answer-IsAnswer 230 0 0 (omega arith) (omega arith) (omega arith);
}

backup_files-delivered_example :
    (u : Auth machine) × (backup_files machine
        (text "d")
        (text "notes.txt" ∷ text "notes.txt" ∷ [])
        busy
      ≡ (ok tt, u))
    × (u.world.socket.incoming ≡ [])
backup_files-delivered_example =
    backup_files-delivered machine machine_duplex little_host-IsNetworkOrder (text "d") user_id
      id_header busy two_files [] loaded header_set
      (notes-IsDelivery 7 first_encrypted, (notes-IsDelivery 8 second_encrypted, tt)) tt refl
