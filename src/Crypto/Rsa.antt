-- ===== src/Crypto/Rsa.antt =====
-- The RSA wrappers: src/crypto/RSAWrapper.cpp, over the keys of Crypto++. A wrapper holds its key; its
-- random pool is passed along.
pub mod Exchange
use encrypted_backup_client.Crypto.Buffer.{Buffer, null_buffer, buffer_of}
use encrypted_backup_client.Base.{
  zero, suc, [], ℕ, Option, none, some, ◌++◌, length, take, drop, Text, text, Result, ok, err,
  invalid_argument, or_throw,
}
use encrypted_backup_client.Utils.Base64
use encrypted_backup_client.System.Platform.{Platform}

-- `CryptoPP::ArraySink` over a buffer: it keeps what fits, and the rest of the buffer stays.
unfoldable pub array_sink : Text → Text → Text
array_sink buffer bytes = take (length buffer) bytes ++ drop (length bytes) buffer

module _ (P : Platform) where
  -- `RSAPublicWrapper(key, length)`, and of a string, which is never null.
  unfoldable pub make_public : Buffer → Result P.PublicKey
  make_public (null_buffer zero) = or_throw (P.load_public_key [])
  make_public (null_buffer (suc n)) =
      err (invalid_argument (text "Public key buffer cannot be null."))
  make_public (buffer_of key) = or_throw (P.load_public_key key)

  -- `RSAPrivateWrapper()`: a new key.
  unfoldable pub generate_private : P.Random → P.PrivateKey × P.Random
  generate_private random = P.generate_key random

  -- `RSAPrivateWrapper(key, length)`, and of a string.
  unfoldable pub make_private : Buffer → Result P.PrivateKey
  make_private (null_buffer zero) = or_throw (P.load_key [])
  make_private (null_buffer (suc n)) =
      err (invalid_argument (text "Private key buffer cannot be null."))
  make_private (buffer_of key) = or_throw (P.load_key key)

  -- `RSAPublicWrapper::getPublicKey`, as a string and into a buffer.
  unfoldable pub get_public_key : P.PublicKey → Text
  get_public_key key = P.save_public_key key

  unfoldable pub get_public_key_into : P.PublicKey → Option Text → Result Text
  get_public_key_into key none =
      err (invalid_argument (text "Public key output buffer cannot be null."))
  get_public_key_into key (some keyout) = ok (array_sink keyout (P.save_public_key key))

  -- `RSAPrivateWrapper::getPrivateKey`, as a string and into a buffer.
  unfoldable pub get_private_key : P.PrivateKey → Text
  get_private_key key = P.save_key key

  unfoldable pub get_private_key_into : P.PrivateKey → Option Text → Result Text
  get_private_key_into key none =
      err (invalid_argument (text "Private key output buffer cannot be null."))
  get_private_key_into key (some keyout) = ok (array_sink keyout (P.save_key key))

  -- `RSAPrivateWrapper::getPublicKey`: the public part, as a string and into a buffer.
  unfoldable pub export_public_key : P.PrivateKey → Text
  export_public_key key = P.save_public_key (P.public_part key)

  unfoldable pub export_public_key_into : P.PrivateKey → Option Text → Result Text
  export_public_key_into key none =
      err (invalid_argument (text "Public key output buffer cannot be null."))
  export_public_key_into key (some keyout) =
      ok (array_sink keyout (P.save_public_key (P.public_part key)))

  abbrev encrypted : Option Text × P.Random → Result Text × P.Random
  encrypted (cipher, random) = (or_throw cipher, random)

  -- `RSAPublicWrapper::encrypt`.
  unfoldable pub encrypt : P.PublicKey → Buffer → P.Random → Result Text × P.Random
  encrypt key (null_buffer zero) random = encrypted (P.encrypt key [] random)
  encrypt key (null_buffer (suc n)) random =
      (err (invalid_argument (text "Plaintext buffer cannot be null.")), random)
  encrypt key (buffer_of plain) random = encrypted (P.encrypt key plain random)

  -- `RSAPrivateWrapper::decrypt`.
  unfoldable pub decrypt : P.PrivateKey → Buffer → Result Text
  decrypt key (null_buffer zero) = or_throw (P.decrypt key [])
  decrypt key (null_buffer (suc n)) =
      err (invalid_argument (text "Ciphertext buffer cannot be null."))
  decrypt key (buffer_of cipher) = or_throw (P.decrypt key cipher)

  -- `RSAPrivateWrapper::decrypt_base64`.
  unfoldable pub decrypt_base64 : P.PrivateKey → Text → Result Text
  unfolding decrypt
  decrypt_base64 key base64_cipher = decrypt key (buffer_of (Base64.decode P base64_cipher))
