-- ===== src/Utils/Validation/Laws.antt =====
-- What validated names are, and that they survive the fixed-size fields of the protocol
-- (src/utils/input_validation.cpp with the setters of src/protocol/request.cpp).
use encrypted_backup_client.Base.{
  ℕ, ◌-◌, ◌≤◌, ◌<◌, ◌≡◌, ◌≢◌, ◌↔◌, ◌⊎◌, refl, ap, ◌∙◌, Bool, true, some, [], ◌∷◌, length, All, take,
  take_all, arith, Text,
}
use encrypted_backup_client.Protocol.Fields.{until_nul, until_nul_self, c_string-fill_field}
use encrypted_backup_client.Protocol.Request.{
  RequestPayload, get_username, set_username, get_file_name, set_file_name,
}
use encrypted_backup_client.Utils.Validation.{
  is_alphanumeric, is_name_char, all_chars, regex_match, matches_validation_rules,
  is_valid_username, is_valid_filename,
}

pub all_chars-All :
    (allowed : ℕ → Bool) (s : Text) → (all_chars allowed s ≡ true) ↔ All (λ c. allowed c ≡ true) s
unfolding all_chars
all_chars-All allowed [] = (λ h. tt, λ h. refl)
all_chars-All allowed (c ∷ s) = (
  λ h. (ground arith, (all_chars-All allowed s).0 (ground arith)),
  λ h. ground (arith, (all_chars-All allowed s).1 h.1),
)

-- The rules accept a text exactly when its length is in the half-open range and every character
-- is in the class.
matches_validation_rules_iff :
    (s : Text) (lo hi : ℕ) (allowed : ℕ → Bool)
    → 0 < lo
    → (matches_validation_rules s lo hi allowed ≡ true)
      ↔ ((lo ≤ length s) × (length s < hi) × (All (λ c. allowed c ≡ true) s))
unfolding matches_validation_rules regex_match
matches_validation_rules_iff [] lo hi allowed h = (λ e. ground arith, λ e. absurd (omega arith))
matches_validation_rules_iff (c ∷ s) lo hi allowed h = (
  λ e. (ground arith, ground arith, (all_chars-All allowed (c ∷ s)).0 (ground arith)),
  λ e. ground (arith, (all_chars-All allowed (c ∷ s)).1 e.2),
)

-- The characters of a name by their codes: the digits, the capital and the small letters of ASCII,
-- the period, the underscore and the hyphen.
abbrev pub IsNameCode : ℕ → Type 0
IsNameCode c =
    ((48 ≤ c) × (c ≤ 57))
    ⊎ (((65 ≤ c) × (c ≤ 90)) ⊎ (((97 ≤ c) × (c ≤ 122)) ⊎ ((c ≡ 46) ⊎ ((c ≡ 95) ⊎ (c ≡ 45)))))

is_name_char_iff : (c : ℕ) → (is_name_char c ≡ true) ↔ IsNameCode c
unfolding is_name_char is_alphanumeric
is_name_char_iff c = (λ h. ground arith, λ h. ground arith)

All-iff : {A B : ℕ → Type 0} → ((c : ℕ) → A c ↔ B c) → (s : Text) → All A s ↔ All B s
All-iff h [] = (λ x. tt, λ x. tt)
All-iff h (c ∷ s) =
    (λ x. ((h c).0 x.0, (All-iff h s).0 x.1), λ x. ((h c).1 x.0, (All-iff h s).1 x.1))

pub is_valid_username_chars :
    (s : Text)
    → (is_valid_username s ≡ true)
      ↔ ((5 ≤ length s) × (length s < 64) × (All (λ c. is_name_char c ≡ true) s))
unfolding is_valid_username
is_valid_username_chars s = matches_validation_rules_iff s 5 64 is_name_char (omega arith)

-- A username is valid exactly when it has 5 to 63 characters, all letters, digits, periods,
-- underscores or hyphens of ASCII.
pub is_valid_username_iff :
    (s : Text)
    → (is_valid_username s ≡ true) ↔ ((5 ≤ length s) × (length s < 64) × (All IsNameCode s))
is_valid_username_iff s =
    let chars = is_valid_username_chars s in
    let codes = All-iff is_name_char_iff s in
    (
      λ h. let (long, short, all) = chars.0 h in (long, short, codes.0 all),
      λ h. chars.1 (h.0, h.1, codes.1 h.2),
    )

is_name_char-ne-zero : (c : ℕ) → is_name_char c ≡ true → c ≢ 0
unfolding is_name_char is_alphanumeric
is_name_char-ne-zero c h = ground arith

pub name_chars-ne-zero : (s : Text) → All (λ c. is_name_char c ≡ true) s → All (λ c. c ≢ 0) s
name_chars-ne-zero [] h = tt
name_chars-ne-zero (c ∷ s) h = (is_name_char-ne-zero c h.0, name_chars-ne-zero s h.1)

name_kept :
    (n : ℕ) (s : Text)
    → length s < n
    → All (λ c. is_name_char c ≡ true) s
    → until_nul (take (n - 1) s) ≡ s
name_kept n s short h =
    ap until_nul (take_all (n - 1) s (omega arith)) ∙ until_nul_self s (name_chars-ne-zero s h)

-- A valid file name stored in the payload is read back whole: it is neither cut nor ended early.
pub get_file_name-set_file_name :
    (s : Text) (p : RequestPayload)
    → is_valid_filename s ≡ true
    → get_file_name (set_file_name s p) ≡ some s
unfolding is_valid_filename get_file_name set_file_name
get_file_name-set_file_name s p valid =
    let (_, short, chars) =
      (matches_validation_rules_iff s 1 255 is_name_char (omega arith)).0 valid in
    c_string-fill_field 255 s (omega arith) ∙ ap some (name_kept 255 s short chars)

-- A valid username stored in the payload is read back whole: it is neither cut nor ended early.
pub get_username-set_username :
    (s : Text) (p : RequestPayload)
    → is_valid_username s ≡ true
    → get_username (set_username s p) ≡ some s
unfolding get_username set_username
get_username-set_username s p valid =
    let (_, short, chars) = (is_valid_username_chars s).0 valid in
    c_string-fill_field 64 s (omega arith) ∙ ap some (name_kept 64 s short chars)
