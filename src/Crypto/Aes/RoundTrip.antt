-- ===== src/Crypto/Aes/RoundTrip.antt =====
-- What an `AESWrapper` encrypts it can decrypt (src/crypto/AESWrapper.cpp).
use encrypted_backup_client.Base.{
  ℕ, ◌≤◌, ◌≡◌, some, ◌++◌, length, length-append, take-append, drop-append, le→ltb, arith, Text, ok,
}
use encrypted_backup_client.System.Platform.{Platform}
use encrypted_backup_client.Crypto.Aes.{AesWrapper, encrypt, decrypt}

-- Decryption with the key and the IV of an encryption gives the plaintext back, and a random block
-- has the size that was asked for.
pub record IsCipher (P : Platform) : Type 0 where
  pub aes_cbc_decrypt-aes_cbc_encrypt :
      (key iv plain : Text) → P.aes_cbc_decrypt key iv (P.aes_cbc_encrypt key iv plain) ≡ some plain
  pub length-generate_block : (n : ℕ) (r : P.Random) → length (P.generate_block n r).0 ≡ n

-- A wrapper, and any other with its key, decrypts what it encrypted, whatever the IV that was drawn.
pub decrypt-encrypt :
    (P : Platform)
    → IsCipher P
    → (aes : AesWrapper) (plain : Text) (random : P.Random)
    → decrypt P aes (some (encrypt P aes plain random).0) ≡ ok plain
unfolding decrypt encrypt
decrypt-encrypt P cipher aes plain random =
    let iv : Text = (P.generate_block 16 random).0 in
    let body : Text = P.aes_cbc_encrypt aes.key iv plain in
    let size : length iv ≡ 16 = cipher.length-generate_block 16 random in
    let long : 16 ≤ length (iv ++ body) = omega (arith, length-append iv body) in
    rw (
      le→ltb (length (iv ++ body)) 16 long,
      take-append 16 iv body size,
      drop-append 16 iv body size,
      cipher.aes_cbc_decrypt-aes_cbc_encrypt aes.key iv plain,
    )
