-- ===== src/Base/Errors.antt =====
-- The exceptions of the program as values, and the result of code that may throw
-- (include/utils/input_validation.h, include/utils/logger.h and the standard exceptions).
use mathlib.Core.Path.{◌≡◌, refl}
use mathlib.Core.Option.{Option, none, some}
use mathlib.Core.Logic.{◌⊎◌, inl, inr}
use encrypted_backup_client.Base.Words.{Text}

-- A thrown exception with its message. `undefined_read` is no exception: it stands for a read
-- outside an object, after which nothing is known of the program. `out_of_fuel` ends a loop of the
-- model whose fuel was too small.
pub data Error : Type 0 where
  invalid_argument : Text → Error
  runtime_error : Text → Error
  length_error : Text → Error
  out_of_range : Text → Error
  system_error : Text → Error
  client_exception : Text → Error
  user_cancelled : Text → Error
  traced_exception : Text → Error
  foreign_error : Error
  undefined_read : Error
  out_of_fuel : Error

pub data Result {ℓ} (A : Type ℓ) : Type ℓ where
  ok : A → Result A
  err : Error → Result A

-- A call of a library that may throw one of its own exceptions.
abbrev pub or_throw {ℓ} : {A : Type ℓ} → Option A → Result A
or_throw none = err foreign_error
or_throw (some a) = ok a

-- Inversion of equal results.
pub ok-injective {ℓ} : {A : Type ℓ} {a b : A} → ok a ≡ ok b → a ≡ b
ok-injective h = cc

infixl 5 ◌>>◌ ◌>>=◌
-- A statement and those behind it: an exception skips them.
abbrev pub ◌>>◌ {ℓ} : {B : Type ℓ} → Result (Unit {0}) → Result B → Result B
err thrown >> rest = err thrown
ok done >> rest = rest

-- A computed value and the code that uses it. Not shut, so that a known value is passed on.
abbrev pub ◌>>=◌ {ℓ κ} : {A : Type ℓ} {B : Type κ} → Result A → (A → Result B) → Result B
err thrown >>= rest = err thrown
ok value >>= rest = rest value

-- What ended well began well.
pub >>=-eq-ok {ℓ κ} :
    {A : Type ℓ} {B : Type κ} {b : B} (first : Result A) (rest : A → Result B)
    → (first >>= rest) ≡ ok b
    → (a : A) × (first ≡ ok a) × (rest a ≡ ok b)
>>=-eq-ok (err thrown) rest h = cc
>>=-eq-ok (ok value) rest h = (value, refl, h)

pub Result-cases {ℓ} :
    {A : Type ℓ} (r : Result A) → ((a : A) × (r ≡ ok a)) ⊎ ((e : Error) × (r ≡ err e))
Result-cases (ok a) = inl (a, refl)
Result-cases (err e) = inr (e, refl)
