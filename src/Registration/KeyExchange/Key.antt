-- ===== src/Registration/KeyExchange/Key.antt =====
-- How the encrypted AES key of a response is read (handle_rsa_key_response of
-- src/registration/key_exchange.cpp): the byte vector is passed where a C string is expected.
use encrypted_backup_client.Base.{
  ◌≡◌, ◌≢◌, refl, some, [], ◌∷◌, ◌++◌, All, arith, Text, err, undefined_read,
}
use encrypted_backup_client.Protocol.Fields.{c_string, c_string-eq-none}
use encrypted_backup_client.System.Platform.{Platform}
use encrypted_backup_client.Registration.KeyExchange.{decrypt_base64}
use encrypted_backup_client.Crypto.Rsa

c_string_until : (s rest : Text) → All (λ b. b ≢ 0) s → c_string (s ++ (0 ∷ rest)) ≡ some s
unfolding c_string
c_string_until [] rest h = refl
c_string_until (b ∷ s) rest h = ground (arith, c_string_until s rest h.1)

-- A key without a zero byte is read past the end of its vector; of a key with one, only the bytes
-- before the first zero are decoded and decrypted.
pub decrypt_base64_terminated :
    (P : Platform) (key : P.PrivateKey) (s rest : Text)
    → All (λ b. b ≢ 0) s
    → (decrypt_base64 P key s ≡ err undefined_read)
      × (decrypt_base64 P key (s ++ (0 ∷ rest)) ≡ Rsa.decrypt_base64 P key s)
unfolding decrypt_base64
decrypt_base64_terminated P key s rest h = (
  rw (c_string-eq-none s h, decrypt_base64) refl,
  rw (c_string_until s rest h, decrypt_base64) refl,
)
