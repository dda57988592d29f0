-- ===== src/Utils/Encoding.antt =====
-- Hexadecimal conversion: src/utils/encoding_utils.cpp and include/utils/encoding_utils.h, with
-- `std::stoul` of the standard library in base 16.
pub mod Laws
use encrypted_backup_client.Base.{
  ℕ, zero, suc, ◌+◌, ◌-◌, ◌*◌, ◌/◌, ◌%◌, ◌^◌, Bool, true, false, ◌&&◌, ◌||◌, Option, none, some,
  List, [], ◌∷◌, ◌++◌, ltb, leb, ◌==◌, if◌then◌else◌, length, take, Text, text, to_string, Error,
  Result, ◌>>=◌, ok, err, invalid_argument,
}

-- One lowercase hexadecimal digit.
unfoldable pub nibble : ℕ → ℕ
nibble n = if ltb n 10 then 48 + n else 87 + n

-- `os << std::hex << std::setfill('0') << std::setw(2) << byte`.
unfoldable pub put_byte : ℕ → Text
unfolding nibble
put_byte b = if ltb b 16 then b'0' ∷ nibble b ∷ [] else nibble (b / 16) ∷ nibble (b % 16) ∷ []

-- The loop of `bytes_to_hex`; `% 256` is the conversion through `unsigned char`.
unfoldable pub hex_stream : Text → Text
hex_stream [] = []
hex_stream (b ∷ bs) = put_byte (b % 256) ++ hex_stream bs

-- `bytes_to_hex(data, size)`; `none` is the null pointer.
unfoldable pub bytes_to_hex : Option Text → ℕ → Result Text
bytes_to_hex none zero = ok []
bytes_to_hex none (suc n) = err (invalid_argument (text "Input data buffer cannot be null."))
bytes_to_hex (some bytes) size = ok (hex_stream (take size bytes))

-- `isspace` in the C locale.
unfoldable pub is_space : ℕ → Bool
is_space c = c == 32 || (leb 9 c && leb c 13)

unfoldable pub hex_digit : ℕ → Option ℕ
hex_digit c =
    if leb b'0' c && leb c b'9'
    then some (c - 48)
    else if leb b'a' c && leb c b'f'
    then some (c - 87)
    else if leb b'A' c && leb c b'F'
    then some (c - 55)
    else none

-- The value of the leading digits, and how many there are.
unfoldable pub digits_value : Text → ℕ → ℕ → ℕ × ℕ
digits_value [] acc n = (acc, n)
digits_value (c ∷ cs) acc n = elim (hex_digit c) [
  | none ↦ (acc, n)
  | some d ↦ digits_value cs (acc * 16 + d) (n + 1)
]

-- A prefix 0x counts only in front of a digit.
unfoldable pub strip_prefix : Text → Text × ℕ
strip_prefix (z ∷ x ∷ d ∷ rest) = elim (hex_digit d) [
  | none ↦ (z ∷ x ∷ d ∷ rest, 0)
  | some _ ↦ if z == b'0' && (x == b'x' || x == b'X') then (d ∷ rest, 2) else (z ∷ x ∷ d ∷ rest, 0)
]
strip_prefix s = (s, 0)

abbrev ulong_mod : ℕ
ulong_mod = 2 ^ 64

-- The digits behind the sign. No digits, or a value over ULONG_MAX, is an exception: `none`.
unfoldable pub magnitude : Bool → ℕ → Text → Option (ℕ × ℕ)
magnitude negative skipped s =
    let (body, marks) = strip_prefix s in
    let (value, count) = digits_value body 0 0 in
    if count == 0
    then none
    else if leb ulong_mod value
    then none
    else some (if negative then (ulong_mod - value) % ulong_mod else value, skipped + marks + count)

-- `std::stoul(s, &parsed, 16)`: the value and the number of characters parsed, blanks and a sign
-- included.
unfoldable pub stoul : ℕ → Text → Option (ℕ × ℕ)
stoul skipped [] = none
stoul skipped (c ∷ cs) = elim (is_space c) [
  | true ↦ stoul (skipped + 1) cs
  | false ↦
      if c == b'-'
      then magnitude true (skipped + 1) cs
      else if c == b'+'
      then magnitude false (skipped + 1) cs
      else magnitude false skipped (c ∷ cs)
]

-- The exception that the loop throws for a bad pair.
unfoldable pub bad_position : ℕ → Error
bad_position offset =
    invalid_argument
      (text "Invalid hexadecimal value at position " ++ (to_string offset ++ text "."))

-- The body of the loop at `hex_offset`, on the two characters of the substring.
unfoldable pub hex_byte : ℕ → Text → Result ℕ
hex_byte offset s = elim (stoul 0 s) [
  | none ↦ err (bad_position offset)
  | some (value, parsed) ↦ if parsed == 2 then ok (value % 256) else err (bad_position offset)
]

-- The loop over the pairs of characters.
unfoldable pub hex_bytes : ℕ → Text → Result Text
hex_bytes offset [] = ok []
hex_bytes offset (a ∷ []) = do value ← hex_byte offset (a ∷ []); ok (value ∷ [])
hex_bytes offset (a ∷ b ∷ rest) = do
  value ← hex_byte offset (a ∷ b ∷ [])
  values ← hex_bytes (offset + 2) rest
  ok (value ∷ values)

-- `hex_string_to_byte_array<n>(hex_string)`.
unfoldable pub hex_string_to_byte_array : ℕ → Text → Result Text
hex_string_to_byte_array n s =
    if length s == n * 2
    then hex_bytes 0 s
    else err (
        invalid_argument
          (text "Hex string length must be exactly " ++ (to_string (n * 2) ++ text " characters.")))
