-- ===== src/Trace/Results.antt =====
-- The pure functions of the protocol and of the codecs throw exceptions of the code only.
use encrypted_backup_client.Base.{
  ℕ, ◌+◌, ltb, length, zero, suc, Option, none, some, [], ◌∷◌, Text, arith,
}
use encrypted_backup_client.Utils.Encoding.{
  bytes_to_hex, bad_position, hex_byte, hex_bytes, hex_string_to_byte_array,
}
use encrypted_backup_client.Protocol.Bytes.{ByteOrder, Host}
use encrypted_backup_client.Protocol.Request.{
  RequestHeader, RequestPayload, set_user_id, set_public_key,
}
use encrypted_backup_client.Protocol.Response
use encrypted_backup_client.Protocol.Response.{
  fixed_response_payload_size, response_header_size, ResponsePayload, get_user_id,
  validate_available_bytes, read_binary_field, copy_bytes, copy_aes_key, deserialize_payload,
  deserialize,
}
use encrypted_backup_client.Trace.Rules.{ok-IsReal, IsReal, IsReal->>=, IsReal->>, IsReal-if}

hex_byte-IsReal : (offset : ℕ) (s : Text) → IsReal (hex_byte offset s)
unfolding hex_byte bad_position
hex_byte-IsReal offset s = λ e. ground arith

hex_bytes-IsReal : (offset : ℕ) (s : Text) → IsReal (hex_bytes offset s)
unfolding hex_bytes
hex_bytes-IsReal offset [] = ok-IsReal
hex_bytes-IsReal offset (a ∷ []) = IsReal->>= _ _ (hex_byte-IsReal offset (a ∷ [])) (λ v. ok-IsReal)
hex_bytes-IsReal offset (a ∷ b ∷ rest) =
    IsReal->>= _ _ (hex_byte-IsReal offset (a ∷ b ∷ []))
      (λ v. IsReal->>= _ _ (hex_bytes-IsReal (offset + 2) rest) (λ vs. ok-IsReal))

hex_string_to_byte_array-IsReal : (n : ℕ) (s : Text) → IsReal (hex_string_to_byte_array n s)
unfolding hex_string_to_byte_array
hex_string_to_byte_array-IsReal n s = λ e. ground (arith, hex_bytes-IsReal 0 s)

bytes_to_hex-IsReal : (buffer : Option Text) (n : ℕ) → IsReal (bytes_to_hex buffer n)
unfolding bytes_to_hex
bytes_to_hex-IsReal none zero = ground arith
bytes_to_hex-IsReal none (suc n) = ground arith
bytes_to_hex-IsReal (some bytes) n = ground arith

pub get_user_id-IsReal : (p : ResponsePayload) → IsReal (get_user_id p)
unfolding get_user_id
get_user_id-IsReal p = bytes_to_hex-IsReal _ _

pub set_user_id-IsReal : (s : Text) (h : RequestHeader) → IsReal (set_user_id s h)
unfolding set_user_id
set_user_id-IsReal s h = IsReal->>= _ _ (hex_string_to_byte_array-IsReal _ s) (λ a. ok-IsReal)

pub set_public_key-IsReal : (key : Option Text) (p : RequestPayload) → IsReal (set_public_key key p)
unfolding set_public_key
set_public_key-IsReal none p = ground arith
set_public_key-IsReal (some key) p = λ e. ground arith

validate-IsReal : (d : Text) (offset n : ℕ) → IsReal (validate_available_bytes d offset n)
unfolding validate_available_bytes
validate-IsReal d offset n = λ e. ground arith

read_binary_field-IsReal :
    (o : ByteOrder) (w : ℕ) (d : Text) (offset : ℕ) → IsReal (read_binary_field o w d offset)
unfolding read_binary_field
read_binary_field-IsReal o w d offset = IsReal->> _ _ (validate-IsReal d offset w) ok-IsReal

copy_bytes-IsReal : (d : Text) (offset n : ℕ) → IsReal (copy_bytes d offset n)
unfolding copy_bytes
copy_bytes-IsReal d offset n = IsReal->> _ _ (validate-IsReal d offset n) ok-IsReal

copy_aes_key-IsReal : (d : Text) (offset n : ℕ) → IsReal (copy_aes_key d offset n)
unfolding copy_aes_key
copy_aes_key-IsReal d offset n = λ e. ground (arith, copy_bytes-IsReal d offset n)

deserialize_payload-IsReal :
    (h : Host) (d : Text) (offset : ℕ) (header : Response.ResponseHeader)
    → IsReal (deserialize_payload h d offset header)
unfolding deserialize_payload
deserialize_payload-IsReal h d offset header = IsReal->>= _ _ (copy_bytes-IsReal d _ _) (λ u.
    IsReal->>= _ _ (copy_aes_key-IsReal d _ _) (λ k.
      IsReal->>= _ _ (read_binary_field-IsReal _ _ d _) (λ s.
        IsReal->>= _ _ (copy_bytes-IsReal d _ _)
          (λ f. IsReal->>= _ _ (read_binary_field-IsReal _ _ d _) (λ c. ok-IsReal)))))

pub deserialize-IsReal : (h : Host) (d : Text) → IsReal (deserialize h d)
unfolding deserialize
deserialize-IsReal h d = IsReal->> _ _ (validate-IsReal d _ _) (
    IsReal->>= _ _ (read_binary_field-IsReal _ _ d _) (λ v.
      IsReal->>= _ _ (read_binary_field-IsReal _ _ d _) (λ c.
        IsReal->>= _ _ (read_binary_field-IsReal _ _ d _) (λ s.
          IsReal-if (ltb (h.ntohl s.0) fixed_response_payload_size) (λ e. cc)
            (IsReal-if (ltb (length d) (response_header_size + h.ntohl s.0)) (λ e. cc)
              (deserialize_payload-IsReal h d _ _))))))
