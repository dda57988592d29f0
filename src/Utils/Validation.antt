-- ===== src/Utils/Validation.antt =====
-- Validation of names: src/utils/input_validation.cpp. The regular expressions are one character
-- class each, repeated at least once over the whole text.
pub mod Laws
use encrypted_backup_client.Base.{
  ℕ, Bool, true, false, ◌&&◌, ◌||◌, [], ◌∷◌, ltb, leb, ◌==◌, if◌then◌else◌, length, Text,
}
use encrypted_backup_client.Protocol.Types.{min_username_len, username_len, file_name_len}

abbrev directory_name_len : ℕ
directory_name_len = 1024

-- [a-zA-Z0-9]
unfoldable pub is_alphanumeric : ℕ → Bool
is_alphanumeric c =
    (leb b'a' c && leb c b'z') || ((leb b'A' c && leb c b'Z') || (leb b'0' c && leb c b'9'))

-- [a-zA-Z0-9._-]
unfoldable pub is_name_char : ℕ → Bool
is_name_char c = is_alphanumeric c || (c == b'.' || (c == b'_' || c == b'-'))

-- [a-zA-Z0-9_\./-]
unfoldable pub is_path_char : ℕ → Bool
is_path_char c = is_alphanumeric c || (c == b'_' || (c == b'.' || (c == b'/' || c == b'-')))

unfoldable pub all_chars : (ℕ → Bool) → Text → Bool
all_chars allowed [] = true
all_chars allowed (c ∷ cs) = allowed c && all_chars allowed cs

-- `std::regex_match(value, "^[class]+$")`.
unfoldable pub regex_match : (ℕ → Bool) → Text → Bool
regex_match allowed [] = false
regex_match allowed (c ∷ cs) = all_chars allowed (c ∷ cs)

unfoldable pub matches_validation_rules : Text → ℕ → ℕ → (ℕ → Bool) → Bool
matches_validation_rules value minimum_length maximum_length pattern_class =
    if ltb (length value) minimum_length || leb maximum_length (length value)
    then false
    else regex_match pattern_class value

unfoldable pub is_valid_username : Text → Bool
is_valid_username username =
    matches_validation_rules username min_username_len username_len is_name_char

unfoldable pub is_valid_dir_name : Text → Bool
is_valid_dir_name directory_name =
    matches_validation_rules directory_name 1 directory_name_len is_path_char

unfoldable pub is_valid_filename : Text → Bool
is_valid_filename filename = matches_validation_rules filename 1 file_name_len is_name_char
