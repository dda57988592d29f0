-- ===== src/Protocol/Fields.antt =====
-- Text in fixed-size fields, as the setters and getters of src/protocol/request.cpp and
-- src/protocol/response.cpp keep it.
use encrypted_backup_client.Base.{
  ℕ, zero, suc, ◌-◌, ◌<◌, ◌≡◌, ◌≢◌, refl, Option, none, some, [], ◌∷◌, ◌++◌, ◌==◌, if◌then◌else◌,
  length, take, replicate, All, min, arith, Text, IsBytes, length-append, All-append, All-take,
  All-replicate, length-take, length-replicate, take-min,
}

-- `field.fill('\0')`, then `std::copy_n` of at most n - 1 characters.
unfoldable pub fill_field : ℕ → Text → Text
fill_field n s =
    let copy_len = min (length s) (n - 1) in take copy_len s ++ replicate (n - copy_len) 0

-- `std::string(field.data())`: the characters up to the first NUL. `none`: there is none in the
-- array, and the read runs past its end.
unfoldable pub c_string : Text → Option Text
c_string [] = none
c_string (b ∷ bs) =
    let rest = c_string bs in
    if b == 0 then some [] else elim rest [ none ↦ none | some s ↦ some (b ∷ s) ]

-- The characters before the first NUL.
unfoldable pub until_nul : Text → Text
until_nul [] = []
until_nul (b ∷ bs) = let rest = until_nul bs in if b == 0 then [] else b ∷ rest

pub c_string-append_nul :
    (s : Text) (n : ℕ) → 0 < n → c_string (s ++ replicate n 0) ≡ some (until_nul s)
unfolding c_string until_nul
c_string-append_nul [] zero h = absurd (omega arith)
c_string-append_nul [] (suc n) h = refl
c_string-append_nul (b ∷ s) n h = ground (arith, c_string-append_nul s n h)

pub c_string-eq-none : (s : Text) → All (λ b. b ≢ 0) s → c_string s ≡ none
unfolding c_string
c_string-eq-none [] h = refl
c_string-eq-none (b ∷ s) h = ground (arith, c_string-eq-none s h.1)

pub until_nul_self : (s : Text) → All (λ b. b ≢ 0) s → until_nul s ≡ s
unfolding until_nul
until_nul_self [] h = refl
until_nul_self (b ∷ s) h = ground (arith, until_nul_self s h.1)

pub length-fill_field : (n : ℕ) (s : Text) → length (fill_field n s) ≡ n
unfolding fill_field
length-fill_field n s = omega (
  arith,
  length-append (take (min (length s) (n - 1)) s) (replicate (n - min (length s) (n - 1)) 0),
  length-take (min (length s) (n - 1)) s,
  length-replicate {A = ℕ} (n - min (length s) (n - 1)) 0,
)

pub IsBytes-fill_field : (n : ℕ) (s : Text) → IsBytes s → IsBytes (fill_field n s)
unfolding fill_field
IsBytes-fill_field n s h =
    All-append _ (take (min (length s) (n - 1)) s) _ (All-take _ _ s h)
      (All-replicate _ _ 0 (omega arith))

-- A field of at least one byte is always terminated, and reads back as the text up to its first
-- NUL, cut to n - 1 characters.
pub c_string-fill_field :
    (n : ℕ) (s : Text) → 0 < n → c_string (fill_field n s) ≡ some (until_nul (take (n - 1) s))
unfolding fill_field
c_string-fill_field n s h =
    rw (take-min (n - 1) s)
      (c_string-append_nul (take (n - 1) s) (n - min (length s) (n - 1)) (omega arith))
