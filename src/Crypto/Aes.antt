-- ===== src/Crypto/Aes.antt =====
-- The AES wrapper: src/crypto/AESWrapper.cpp, over the cipher of Crypto++.
pub mod RoundTrip
use encrypted_backup_client.Crypto.Buffer.{Buffer, null_buffer, buffer_of}
use encrypted_backup_client.Base.{
  zero, suc, [], ℕ, ◌++◌, Option, none, some, ◌==◌, if◌then◌else◌, length, Text, text, Result, ok,
  err, invalid_argument, length_error, runtime_error, or_throw, ltb, take, drop,
}
use encrypted_backup_client.System.Platform.{Platform}

abbrev pub default_key_len : ℕ
default_key_len = 32

-- CryptoPP::AES::BLOCKSIZE
abbrev pub block_size : ℕ
block_size = 16

pub record AesWrapper : Type 0 where
  pub key : Text

-- `AESWrapper(key, length)`; `none` is the null pointer.
unfoldable pub make_aes : Option Text → Result AesWrapper
make_aes none = err (invalid_argument (text "AES key cannot be null."))
make_aes (some key) =
    if length key == default_key_len
    then ok (record { key = key })
    else err (length_error (text "AES key length must be 32 bytes."))

-- `AESWrapper::GenerateKey` into a buffer of `size` bytes; `none` is the null pointer.
unfoldable pub generate_key :
    (P : Platform) → Option (Unit {0}) → ℕ → P.Random → Result Text × P.Random
generate_key P none size random =
    (err (invalid_argument (text "AES key buffer cannot be null.")), random)
generate_key P (some buffer) size random =
    let (key, random') = P.generate_block size random in (ok key, random')

-- `AESWrapper()`: a new key.
unfoldable pub make_random_aes : (P : Platform) → P.Random → AesWrapper × P.Random
make_random_aes P random =
    let (key, random') = P.generate_block default_key_len random in (record { key = key }, random')

-- `AESWrapper::decrypt`: the IV, then the ciphertext.
unfoldable pub decrypt : (P : Platform) → AesWrapper → Option Text → Result Text
decrypt P aes none = err (invalid_argument (text "Ciphertext buffer cannot be null."))
decrypt P aes (some cipher) =
    if ltb (length cipher) block_size
    then err (runtime_error (text "Ciphertext is too short to contain an IV and encrypted data."))
    else or_throw (P.aes_cbc_decrypt aes.key (take block_size cipher) (drop block_size cipher))

-- `AESWrapper::encrypt` behind its check: a fresh IV, then the ciphertext.
unfoldable pub encrypt : (P : Platform) → AesWrapper → Text → P.Random → Text × P.Random
encrypt P aes plain random =
    let (iv, random') = P.generate_block block_size random in
    (iv ++ P.aes_cbc_encrypt aes.key iv plain, random')

-- `AESWrapper::encrypt(plain, length)`.
abbrev pub encrypt_buffer : (P : Platform) → AesWrapper → Buffer → P.Random → Result Text × P.Random
encrypt_buffer P aes (null_buffer zero) random =
    let (cipher, random') = encrypt P aes [] random in (ok cipher, random')
encrypt_buffer P aes (null_buffer (suc n)) random =
    (err (invalid_argument (text "Plaintext buffer cannot be null.")), random)
encrypt_buffer P aes (buffer_of plain) random =
    let (cipher, random') = encrypt P aes plain random in (ok cipher, random')
