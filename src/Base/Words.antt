-- ===== src/Base/Words.antt =====
-- Text as the bytes of a `std::string`, equality of texts, and `std::to_string`.
use Prim.Native.Nat.{ℕ, zero, suc, ◌+◌, ◌*◌, ◌/◌, ◌%◌, ◌<◌, ◌≤◌}
use Prim.Native.Char.{code}
use Prim.Native.String.{String}
use mathlib.Core.Path.{◌≡◌, refl}
use mathlib.Core.Bool.{Bool, true, false, ◌&&◌}
use mathlib.Core.List.{List, [], ◌∷◌}
use native.Mathlib.Omega.{arith}
use encrypted_backup_client.Base.Tests.{◌==◌, ltb, if◌then◌else◌}
use encrypted_backup_client.Base.Lists.{All, length}

-- The bytes of a string or of a buffer, each read as an `unsigned char`.
abbrev pub Text : Type 0
Text = List ℕ

-- Every element is the value of one byte.
abbrev pub IsBytes : Text → Type 0
IsBytes = All (λ b. b < 256)

-- A string literal of the source. Shut, so that proofs do not spell it out.
unfoldable pub text : String → Text
text String.[] = []
text (String.◌∷◌ c s) = code c ∷ text s

-- `operator==` of two strings.
unfoldable pub text_eq : Text → Text → Bool
text_eq [] [] = true
text_eq [] (y ∷ ys) = false
text_eq (x ∷ xs) [] = false
text_eq (x ∷ xs) (y ∷ ys) = x == y && text_eq xs ys

pub text_eq→eq : (xs ys : Text) → text_eq xs ys ≡ true → xs ≡ ys
unfolding text_eq
text_eq→eq [] [] h = refl
text_eq→eq [] (y ∷ ys) h = cc
text_eq→eq (x ∷ xs) [] h = cc
text_eq→eq (x ∷ xs) (y ∷ ys) h = ground (arith, text_eq→eq xs ys)

pub text_eq_refl : (xs : Text) → text_eq xs xs ≡ true
unfolding text_eq
text_eq_refl [] = refl
text_eq_refl (x ∷ xs) = ground (arith, text_eq_refl xs)

-- The decimal digits of a number, on fuel; 20 digits hold every 64-bit value.
decimal : ℕ → ℕ → Text → Text
decimal zero n acc = acc
decimal (suc fuel) n acc =
    let digits = (48 + n % 10) ∷ acc in
    let rest = decimal fuel (n / 10) digits in if ltb n 10 then digits else rest

-- `std::to_string` of an unsigned number below 10 ^ 20.
unfoldable pub to_string : ℕ → Text
unfolding decimal
to_string n = decimal 20 n []

decimal_grows : (fuel n : ℕ) (acc : Text) → length acc ≤ length (decimal fuel n acc)
unfolding decimal
decimal_grows zero n acc = omega arith
decimal_grows (suc fuel) n acc = ground (arith, decimal_grows fuel (n / 10) ((48 + n % 10) ∷ acc))

-- From what the digits of n / 10 take to what the digits of n take.
decimal_fits :
    (fuel b d : ℕ)
    → ((m : ℕ) (acc : Text) → m < b → length (decimal fuel m acc) ≤ length acc + d)
    → (n : ℕ) (acc : Text) → n < 10 * b
    → length (decimal (suc fuel) n acc) ≤ length acc + suc d
unfolding decimal
decimal_fits fuel b d fits n acc h = ground (arith, fits (n / 10) ((48 + n % 10) ∷ acc))

decimal_takes :
    (fuel b d : ℕ)
    → 1 ≤ b
    → ((m : ℕ) (acc : Text) → b ≤ m → length acc + d ≤ length (decimal fuel m acc))
    → (n : ℕ) (acc : Text) → 10 * b ≤ n
    → length acc + suc d ≤ length (decimal (suc fuel) n acc)
unfolding decimal
decimal_takes fuel b d h takes n acc k = ground (arith, takes (n / 10) ((48 + n % 10) ∷ acc))

decimal_one :
    (fuel n : ℕ) (acc : Text) → n < 10 → length (decimal (suc fuel) n acc) ≤ length acc + 1
unfolding decimal
decimal_one fuel n acc h = ground arith

decimal_some :
    (fuel n : ℕ) (acc : Text) → 1 ≤ n → length acc + 1 ≤ length (decimal (suc fuel) n acc)
unfolding decimal
decimal_some fuel n acc h = ground (arith, decimal_grows fuel (n / 10) ((48 + n % 10) ∷ acc))

-- Four digits are enough for the numbers below 10000, and for no other.
pub length-to_string_few : (n : ℕ) → n < 10000 → length (to_string n) ≤ 4
unfolding to_string
length-to_string_few n h =
    decimal_fits 19 1000 3 (decimal_fits 18 100 2 (decimal_fits 17 10 1 (decimal_one 16))) n [] h

pub length-to_string_many : (n : ℕ) → 10000 ≤ n → 5 ≤ length (to_string n)
unfolding to_string
length-to_string_many n h =
    decimal_takes 19 1000 4 (omega arith)
      (decimal_takes 18 100 3 (omega arith) (
        decimal_takes 17 10 2 (omega arith) (decimal_takes 16 1 1 (omega arith) (decimal_some 15))))
      n [] h
