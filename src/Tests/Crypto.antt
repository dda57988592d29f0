-- ===== src/Tests/Crypto.antt =====
-- The wrappers, the port and the timestamp in memory.
use encrypted_backup_client.Crypto.Buffer.{buffer_of}
use encrypted_backup_client.Base.{
  ℕ, pos, ◌+◌, ◌-◌, ◌%◌, ◌^◌, ◌<◌, ◌≡◌, ◌↔◌, refl, sym, ap, Option, some, [], ◌∷◌, ◌++◌, length,
  length-replicate, drop, drop-append, replicate, Text, text, ok,
}
use encrypted_backup_client.Base.Int.{low_word}
use encrypted_backup_client.System.World.{LocalTime}
use encrypted_backup_client.Config.Server.{port_of}
use encrypted_backup_client.Config.Server.Port.{port_of_iff}
use encrypted_backup_client.Crypto.Aes.RoundTrip.{IsCipher}
use encrypted_backup_client.Crypto.Rsa
use encrypted_backup_client.Crypto.Rsa.{export_public_key_into, make_public, decrypt_base64}
use encrypted_backup_client.Crypto.Rsa.Exchange.{IsKeyPair, decrypt_base64-encrypt}
use encrypted_backup_client.Tests.Machine.{machine, open_line}

unpad_padded :
    (padding : ℕ) (plain : Text)
    → drop (padding - 1) (replicate (padding - 1) padding ++ plain) ≡ plain
unpad_padded padding plain =
    drop-append (padding - 1) (replicate (padding - 1) padding) plain
      (length-replicate {A = ℕ} (padding - 1) padding)

pub machine-IsCipher : IsCipher machine
machine-IsCipher = record {
  aes_cbc_decrypt-aes_cbc_encrypt =
      λ key iv plain. ap some (unpad_padded (16 - length plain % 16) plain);
  length-generate_block = λ n seed. length-replicate {A = ℕ} n (seed % 256);
}

open_line-newline : (s : Text) → open_line (s ++ (10 ∷ [])) ≡ s
open_line-newline [] = refl
open_line-newline (c ∷ []) = refl
open_line-newline (c ∷ d ∷ cs) = ap (◌∷◌ c) (open_line-newline (d ∷ cs))

abbrev pub pair_key : Text
pair_key = replicate 8 65

pub machine_pair : IsKeyPair machine pair_key 8
machine_pair = record {
  load-save = refl;
  length-save = refl;
  decrypt-encrypt = λ plain cipher r s h. sym (ap (λ (x : Option Text × ℕ). x.0) h);
  decode-encode = open_line-newline;
}

drawn : Rsa.encrypt machine pair_key (buffer_of (text "an AES key")) 7 ≡ (ok (text "an AES key"), 8)
unfolding Rsa.encrypt
drawn = refl

decrypt_base64-encrypt_example :
    (buffer : Text) × (export_public_key_into machine pair_key (some (replicate 8 0)) ≡ ok buffer)
    × (make_public machine (buffer_of buffer) ≡ ok pair_key)
    × (decrypt_base64 machine pair_key (text "an AES key" ++ (10 ∷ [])) ≡ ok (text "an AES key"))
decrypt_base64-encrypt_example =
    decrypt_base64-encrypt machine pair_key 8 machine_pair (text "an AES key") (text "an AES key") 7
      8 drawn

-- A number far beyond the range.
port_of_iff_example :
    (port_of (pos (2 ^ 32 + 80)) ≡ ok 80) ↔ ((80 < 2 ^ 16) × (low_word (pos (2 ^ 32 + 80)) ≡ 80))
port_of_iff_example = port_of_iff (pos (2 ^ 32 + 80)) 80

abbrev afternoon : LocalTime
afternoon = record { year = 2026; month = 11; day = 25; hour = 17; minute = 5; second = 9 }
