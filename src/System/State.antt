-- ===== src/System/State.antt =====
-- Code with state that may throw: the state is kept when an exception passes.
use encrypted_backup_client.Base.{◌≡◌, refl, Result, ok, err, Error}

abbrev pub M : Type 0 → Type 0 → Type 0
M S A = S → Result A × S

abbrev pub continue : {S A B : Type 0} → Result A × S → (A → M S B) → Result B × S
continue (ok a, s) f = f a s
continue (err e, s) f = (err e, s)

infixl 5 ◌>>=◌ ◌>>◌
abbrev pub ◌>>=◌ : {S A B : Type 0} → M S A → (A → M S B) → M S B
◌>>=◌ m f s = continue (m s) f

abbrev pub ◌>>◌ : {S B : Type 0} → M S (Unit {0}) → M S B → M S B
◌>>◌ m k s = continue (m s) (λ _. k)

abbrev pub return : {S A : Type 0} → A → M S A
return a s = (ok a, s)

abbrev pub throw : {S A : Type 0} → Error → M S A
throw e s = (err e, s)

-- A computation that only throws.
abbrev pub lift : {S A : Type 0} → Result A → M S A
lift r s = (r, s)

abbrev pub read_state : {S : Type 0} → M S S
read_state s = (ok s, s)

abbrev pub update : {S : Type 0} → (S → S) → M S (Unit {0})
update f s = (ok tt, f s)

-- Inversion of a successful sequence.
pub >>=-eq-ok :
    {S A B : Type 0} (m : M S A) (f : A → M S B) (s : S) {b : B} {u : S}
    → (m >>= f) s ≡ (ok b, u)
    → (a : A) × (t : S) × (m s ≡ (ok a, t)) × (f a t ≡ (ok b, u))
>>=-eq-ok {S} {A} {B} m f s {b} {u} h = go (m s) refl h
  where
    go :
        (r : Result A × S)
        → m s ≡ r
        → continue r f ≡ (ok b, u)
        → (a : A) × (t : S) × (m s ≡ (ok a, t)) × (f a t ≡ (ok b, u))
    go (ok a, t) e h = (a, t, e, h)
    go (err x, t) e h = cc

-- A pure step that was passed.
pub lift-eq-ok :
    {S A B : Type 0} (r : Result A) (f : A → M S B) (s : S) {b : B} {u : S}
    → (lift r >>= f) s ≡ (ok b, u)
    → (a : A) × (r ≡ ok a) × (f a s ≡ (ok b, u))
lift-eq-ok (ok a) f s h = (a, refl, h)
lift-eq-ok (err x) f s h = cc
