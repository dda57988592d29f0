-- ===== src/Tests/Names.antt =====
-- The rules for names and the hexadecimal format on samples.
use encrypted_backup_client.Base.{
  ◌≤◌, ◌<◌, ◌≡◌, ◌↔◌, refl, true, some, [], ◌∷◌, length, All, arith, Text, text, ok,
}
use encrypted_backup_client.Utils.Encoding.{
  hex_byte, stoul, is_space, magnitude, strip_prefix, digits_value, bytes_to_hex,
  hex_string_to_byte_array, hex_bytes, hex_digit,
}
use encrypted_backup_client.Utils.Encoding.Laws.{
  hex_string_to_byte_array-bytes_to_hex, hex_bytes_sign,
}
use encrypted_backup_client.Utils.Validation.{is_valid_username}
use encrypted_backup_client.Utils.Validation.Laws.{IsNameCode, is_valid_username_iff}

hex_string_to_byte_array-bytes_to_hex_example :
    (s : Text) × (bytes_to_hex (some (0 ∷ 171 ∷ 255 ∷ [])) 3 ≡ ok s)
    × (hex_string_to_byte_array 3 s ≡ ok (0 ∷ 171 ∷ 255 ∷ []))
hex_string_to_byte_array-bytes_to_hex_example =
    hex_string_to_byte_array-bytes_to_hex 3 (0 ∷ 171 ∷ 255 ∷ [])
      (omega arith, (omega arith, (omega arith, tt))) refl

abbrev three_bytes : Text
three_bytes = 0 ∷ 171 ∷ 255 ∷ []

rest_accepted : hex_bytes 2 (b'1' ∷ b'2' ∷ []) ≡ ok (18 ∷ [])
unfolding hex_bytes hex_byte stoul is_space magnitude strip_prefix digits_value hex_digit
rest_accepted = refl

hex_bytes_sign_example :
    (hex_bytes 0 (b'+' ∷ b'a' ∷ b'1' ∷ b'2' ∷ []) ≡ ok (10 ∷ 18 ∷ []))
    × (hex_bytes 0 (b' ' ∷ b'a' ∷ b'1' ∷ b'2' ∷ []) ≡ ok (10 ∷ 18 ∷ []))
unfolding hex_digit
hex_bytes_sign_example = hex_bytes_sign 0 b'a' 10 (b'1' ∷ b'2' ∷ []) (18 ∷ []) refl rest_accepted

is_valid_username_iff_example : (is_valid_username (text "al.ice-7") ≡ true) ↔ (
    (5 ≤ length (text "al.ice-7"))
    × (length (text "al.ice-7") < 64)
    × (All IsNameCode (text "al.ice-7")))
is_valid_username_iff_example = is_valid_username_iff (text "al.ice-7")
