-- ===== src/Registration/Identity.antt =====
-- The user ID of an answer and the username of a prompt, as they go into files and requests
-- (get_user_id of src/protocol/response.cpp, set_user_id of src/protocol/request.cpp).
use mathlib.Core.Path.{subst}
use encrypted_backup_client.Base.{
  ℕ, ◌%◌, ◌<◌, ◌≡◌, ◌∙◌, sym, refl, ap, Bool-cases, inl, inr, true, false, [], ◌∷◌, ltb, ◌/◌, All,
  All-append, Text, length, IsBytes, ok, arith, ok-injective,
}
use encrypted_backup_client.Utils.Encoding.{
  is_space, nibble, put_byte, hex_stream, bytes_to_hex, hex_string_to_byte_array,
}
use encrypted_backup_client.Utils.Encoding.Laws.{hex_string_to_byte_array-bytes_to_hex}
use encrypted_backup_client.Utils.Validation.{is_alphanumeric, is_name_char, is_valid_username}
use encrypted_backup_client.Utils.Validation.Laws.{is_valid_username_chars}
use encrypted_backup_client.Protocol.Request.{init_header, set_user_id}
use encrypted_backup_client.Protocol.Response.{ResponsePayload, get_user_id}

-- A text without blanks.
abbrev pub IsWord : Text → Type 0
IsWord s = All (λ c. is_space c ≡ false) s

nibble-is_space : (n : ℕ) → n < 16 → is_space (nibble n) ≡ false
unfolding nibble is_space
nibble-is_space n h = ground arith

put_byte-IsWord : (b : ℕ) → b < 256 → IsWord (put_byte b)
unfolding put_byte is_space
put_byte-IsWord b h = elim (Bool-cases (ltb b 16)) [
  | inl small ↦ rw (small, put_byte) (refl, (nibble-is_space b (ground arith), tt))
  | inr large ↦
      rw (large, put_byte)
        (nibble-is_space (b / 16) (omega arith), (nibble-is_space (b % 16) (omega arith), tt))
]

hex_stream-IsWord : (bs : Text) → IsWord (hex_stream bs)
unfolding hex_stream
hex_stream-IsWord [] = tt
hex_stream-IsWord (b ∷ bs) =
    All-append _ (put_byte (b % 256)) (hex_stream bs) (put_byte-IsWord (b % 256) (omega arith))
      (hex_stream-IsWord bs)

-- A user ID is written without blanks.
pub get_user_id-IsWord :
    (p : ResponsePayload) (user_id : Text) → get_user_id p ≡ ok user_id → IsWord user_id
unfolding get_user_id bytes_to_hex
get_user_id-IsWord p user_id h = subst IsWord (ok-injective h) (hex_stream-IsWord _)

-- The user ID of an answer is one for the header of a request.
pub set_user_id-get_user_id :
    (p : ResponsePayload) (user_id : Text)
    → length p.user_id ≡ 16
    → IsBytes p.user_id
    → get_user_id p ≡ ok user_id
    → set_user_id user_id init_header ≡ ok (record init_header { user_id = p.user_id })
unfolding get_user_id set_user_id
set_user_id-get_user_id p user_id size bytes h =
    let (s, printed, read) = hex_string_to_byte_array-bytes_to_hex 16 p.user_id bytes size in
    let same : s ≡ user_id = ok-injective (sym printed ∙ h) in
    rw (ap (hex_string_to_byte_array 16) (sym same) ∙ read) refl

name_char-is_space : (c : ℕ) → is_name_char c ≡ true → is_space c ≡ false
unfolding is_name_char is_alphanumeric is_space
name_char-is_space c h = ground arith

name_chars-IsWord : (s : Text) → All (λ c. is_name_char c ≡ true) s → IsWord s
name_chars-IsWord [] h = tt
name_chars-IsWord (c ∷ s) h = (name_char-is_space c h.0, name_chars-IsWord s h.1)

-- A valid username has no blanks.
pub is_valid_username-IsWord : (s : Text) → is_valid_username s ≡ true → IsWord s
is_valid_username-IsWord s valid = name_chars-IsWord s ((is_valid_username_chars s).0 valid).2
