-- ===== src/Crypto/Rsa/Exchange.antt =====
-- The server's side of the key exchange against the client's (src/crypto/RSAWrapper.cpp): a text that is
-- encrypted under the exported public key is decrypted by the private key.
use encrypted_backup_client.Crypto.Buffer.{buffer_of}
use encrypted_backup_client.Base.{
  ℕ, ◌≡◌, ap, ◌∙◌, Option, none, some, ◌++◌, append-nil, length, length-replicate, drop, take_all,
  drop_all, replicate, arith, Text, ok,
}
use encrypted_backup_client.System.Platform.{Platform}
use encrypted_backup_client.Crypto.Rsa.{
  array_sink, make_public, export_public_key_into, encrypt, encrypted, decrypt_base64,
}

-- A saved public key of a new private key loads again and has `size` bytes, decryption inverts
-- encryption, and decoding inverts encoding.
pub record IsKeyPair (P : Platform) (key : P.PrivateKey) (size : ℕ) : Type 0 where
  pub load-save :
      P.load_public_key (P.save_public_key (P.public_part key)) ≡ some (P.public_part key)
  pub length-save : length (P.save_public_key (P.public_part key)) ≡ size
  pub decrypt-encrypt :
      (plain cipher : Text) (r s : P.Random)
      → P.encrypt (P.public_part key) plain r ≡ (some cipher, s)
      → P.decrypt key cipher ≡ some plain
  pub decode-encode : (s : Text) → P.base64_decode (P.base64_encode s) ≡ s

array_sink_full :
    (buffer bytes : Text) → length bytes ≡ length buffer → array_sink buffer bytes ≡ bytes
unfolding array_sink
array_sink_full buffer bytes h =
    ap (λ (t : Text). t ++ drop (length bytes) buffer)
      (take_all (length buffer) bytes (omega arith))
    ∙ ap (◌++◌ bytes) (drop_all (length bytes) buffer (omega arith))
    ∙ append-nil bytes

encrypted-eq-ok :
    (P : Platform) (m : Option Text × P.Random) (cipher : Text) (s : P.Random)
    → encrypted P m ≡ (ok cipher, s)
    → m ≡ (some cipher, s)
encrypted-eq-ok P (none, t) cipher s h = cc
encrypted-eq-ok P (some c, t) cipher s h = cc

module _ (P : Platform) (key : P.PrivateKey) (n : ℕ) (pair : IsKeyPair P key n) where
  -- The public key that is exported into a zeroed buffer of its size is the key that the other side
  -- loads, and what that side encrypts with it, in Base64, is decrypted to the plaintext.
  pub decrypt_base64-encrypt :
      (plain cipher : Text) (r s : P.Random)
      → encrypt P (P.public_part key) (buffer_of plain) r ≡ (ok cipher, s)
      → (buffer : Text) × (export_public_key_into P key (some (replicate n 0)) ≡ ok buffer)
        × (make_public P (buffer_of buffer) ≡ ok (P.public_part key))
        × (decrypt_base64 P key (P.base64_encode cipher) ≡ ok plain)
  unfolding export_public_key_into make_public encrypt decrypt_base64
  decrypt_base64-encrypt plain cipher r s h =
      let saved : Text = P.save_public_key (P.public_part key) in
      let drawn = encrypted-eq-ok P (P.encrypt (P.public_part key) plain r) cipher s h in
      (
        saved,
        ap ok (
            array_sink_full (replicate n 0) saved
              (omega (arith, pair.length-save, length-replicate {A = ℕ} n 0))),
        rw pair.load-save,
        rw (pair.decode-encode cipher, pair.decrypt-encrypt plain cipher r s drawn),
      )
