-- ===== src/Crypto/Buffer.antt =====
-- The input buffers of the wrappers: a pointer with its length (src/crypto/RSAWrapper.cpp,
-- src/crypto/AESWrapper.cpp).
use encrypted_backup_client.Base.{ℕ, Text}

-- A null pointer with a length, or the bytes that a pointer has.
pub data Buffer : Type 0 where
  null_buffer : (length : ℕ) → Buffer
  buffer_of : (content : Text) → Buffer
