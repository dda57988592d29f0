-- ===== src/Utils/Base64.antt =====
-- The Base64 functions of src/utils/encoding_utils.cpp and the checksum of
-- src/utils/input_validation.cpp, over Crypto++ and Boost.CRC.
use encrypted_backup_client.Base.{
  ℕ, zero, suc, Option, none, some, [], take, Text, text, Result, ok, err, invalid_argument,
}
use encrypted_backup_client.System.Platform.{Platform}

module _ (P : Platform) where
  -- `Base64Wrapper::encode` and `Base64Wrapper::decode` of a string.
  abbrev pub encode : Text → Text
  encode s = P.base64_encode s

  abbrev pub decode : Text → Text
  decode s = P.base64_decode s

  -- `Base64Wrapper::encode(data, size)`; `none` is the null pointer.
  unfoldable encode_bytes : Option Text → ℕ → Result Text
  encode_bytes none zero = ok (P.base64_encode_flat [])
  encode_bytes none (suc n) = err (invalid_argument (text "Input data buffer cannot be null."))
  encode_bytes (some bytes) size = ok (P.base64_encode_flat (take size bytes))

  unfoldable calculate_crc32 : Option Text → ℕ → Result ℕ
  calculate_crc32 none zero = ok (P.crc32 [])
  calculate_crc32 none (suc n) = err (invalid_argument (text "CRC input buffer cannot be null."))
  calculate_crc32 (some buffer) buffer_size = ok (P.crc32 (take buffer_size buffer))
