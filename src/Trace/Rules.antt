-- ===== src/Trace/Rules.antt =====
-- How a computation runs: through the steps of the client, and never out of the model's fuel. One
-- rule for each way in which the code is put together.
use mathlib.Core.Path.{subst}
use encrypted_backup_client.Base.{
  ◌≡◌, ◌≤◌, length, ◌≢◌, refl, ap, Bool, true, false, if◌then◌else◌, Result, ok, err, Error,
  out_of_fuel, ◌>>=◌, ◌>>◌, Option, none, some, or_throw,
}
use encrypted_backup_client.System.State.{M, continue}
use encrypted_backup_client.System.Platform.{Platform}
use encrypted_backup_client.System.World.{World}
use encrypted_backup_client.Crypto.Upload.{Auth, keep_auth}
use encrypted_backup_client.Trace.Steps.{Reach-input, Reach, Step, one_step, here, Reach-trans}

-- A result of the code: any value, and any exception but the model's own.
abbrev pub IsReal : {A : Type 0} → Result A → Type 0
IsReal r = r ≢ err out_of_fuel

-- Every other exception.
abbrev pub IsThrown : Error → Type 0
IsThrown out_of_fuel = ⊥
IsThrown _ = Unit

-- The result of a statement that is known.
pub result_of :
    {A S : Type 0} {r q : Result A} {s t : S} → ◌≡◌ {A = Result A × S} (r, s) (q, t) → r ≡ q
result_of h = ap (λ x. x.0) h

-- From one world, a result in another: what an operation of the client comes to.
pub record Runs {P : Platform} {A : Type 0} (w : World P) (x : Result A × World P) : Type 0 where
  pub real : IsReal x.0
  pub reached : Reach w x.1

pub record RunsAuth {P : Platform} {A : Type 0} (s : Auth P) (x : Result A × Auth P) : Type 0 where
  pub real : IsReal x.0
  pub reached : Reach s.world x.1.world

err-injective : {A : Type 0} {d e : Error} → ◌≡◌ {A = Result A} (err d) (err e) → d ≡ e
err-injective h = cc

module _ {A : Type 0} where
  pub ok-IsReal : {a : A} → IsReal (ok a)
  ok-IsReal h = cc

  pub err-IsReal : (e : Error) → IsThrown e → IsReal {A = A} (err e)
  err-IsReal e h k = subst IsThrown (err-injective k) h

module _ {A B : Type 0} where
  -- An exception at another type.
  pub rethrown : {e : Error} → IsReal {A = A} (err e) → IsReal {A = B} (err e)
  rethrown h k = h (ap err (err-injective k))

  pub IsReal->>= :
      (r : Result A) (f : A → Result B) → IsReal r → ((a : A) → IsReal (f a)) → IsReal (r >>= f)
  IsReal->>= (ok a) f h k = k a
  IsReal->>= (err e) f h k = rethrown h

module _ {A : Type 0} where
  pub IsReal->> :
      (r : Result (Unit {0})) (rest : Result A) → IsReal r → IsReal rest → IsReal (r >> rest)
  IsReal->> (ok a) rest h k = k
  IsReal->> (err e) rest h k = rethrown h

  pub IsReal-if : (b : Bool) {x y : Result A} → IsReal x → IsReal y → IsReal (if b then x else y)
  IsReal-if true h k = h
  IsReal-if false h k = k

  pub IsReal-or_throw : (o : Option A) → IsReal (or_throw o)
  IsReal-or_throw none = λ h. cc
  IsReal-or_throw (some a) = λ h. cc

module _ {P : Platform} {A B : Type 0} where
  -- A statement and what follows it, which may use that the statement returned.
  pub Runs-bind :
      {w : World P} {x : Result A × World P} {f : A → M (World P) B}
      → Runs w x
      → ((a : A) (v : World P) → x ≡ (ok a, v) → Runs v (f a v))
      → Runs w (continue x f)
  Runs-bind {x = (ok a, v)} h k =
      let rest = k a v refl in
      record { real = rest.real; reached = Reach-trans h.reached rest.reached }
  Runs-bind {x = (err e, v)} h k = record { real = rethrown h.real; reached = h.reached }

  pub RunsAuth-bind :
      {s : Auth P} {x : Result A × Auth P} {f : A → M (Auth P) B}
      → RunsAuth s x
      → ((a : A) (t : Auth P) → x ≡ (ok a, t) → RunsAuth t (f a t))
      → RunsAuth s (continue x f)
  RunsAuth-bind {x = (ok a, v)} h k =
      let rest = k a v refl in
      record { real = rest.real; reached = Reach-trans h.reached rest.reached }
  RunsAuth-bind {x = (err e, v)} h k = record { real = rethrown h.real; reached = h.reached }

module _ {P : Platform} {A : Type 0} where
  pub Runs-after : {w v : World P} {x : Result A × World P} → Reach w v → Runs v x → Runs w x
  Runs-after r h = record { real = h.real; reached = Reach-trans r h.reached }

  pub RunsAuth-after :
      {s : Auth P} {v : World P} {x : Result A × Auth P}
      → Reach s.world v
      → RunsAuth (record s { world = v }) x
      → RunsAuth s x
  RunsAuth-after r h = record { real = h.real; reached = Reach-trans r h.reached }

  pub RunsAuth-keep_auth :
      (s : Auth P) {x : Result A × World P} → Runs s.world x → RunsAuth s (keep_auth s x)
  RunsAuth-keep_auth s h = record { real = h.real; reached = h.reached }

  pub Runs-if :
      {w : World P} (b : Bool) {x y : Result A × World P}
      → (b ≡ true → Runs w x)
      → (b ≡ false → Runs w y)
      → Runs w (if b then x else y)
  Runs-if true h k = h refl
  Runs-if false h k = k refl

  -- A pure statement that may throw.
  pub Runs-lift : {w : World P} {r : Result A} → IsReal r → Runs w (r, w)
  Runs-lift h = record { real = h; reached = here }

  pub RunsAuth-lift : {s : Auth P} {r : Result A} → IsReal r → RunsAuth s (r, s)
  RunsAuth-lift h = record { real = h; reached = here }

  -- A statement that makes one step and throws nothing.
  pub Runs-step : {w v : World P} {r : Result A} → IsReal r → Step w v → Runs w (r, v)
  Runs-step h step = record { real = h; reached = one_step step }

  pub RunsAuth-if :
      {s : Auth P} (b : Bool) {x y : Result A × Auth P}
      → (b ≡ true → RunsAuth s x)
      → (b ≡ false → RunsAuth s y)
      → RunsAuth s (if b then x else y)
  RunsAuth-if true h k = h refl
  RunsAuth-if false h k = k refl

  pub Runs-branch :
      {w : World P} (b : Bool) (m n : M (World P) A)
      → (b ≡ true → Runs w (m w))
      → (b ≡ false → Runs w (n w))
      → Runs w ((if b then m else n) w)
  Runs-branch true m n h k = h refl
  Runs-branch false m n h k = k refl

  pub RunsAuth-branch :
      {s : Auth P} (b : Bool) (m n : M (Auth P) A)
      → (b ≡ true → RunsAuth s (m s))
      → (b ≡ false → RunsAuth s (n s))
      → RunsAuth s ((if b then m else n) s)
  RunsAuth-branch true m n h k = h refl
  RunsAuth-branch false m n h k = k refl

  -- A statement gives no input back.
  pub Runs-input :
      {w v : World P} {x : Result A × World P} {r : Result A}
      → Runs w x
      → x ≡ (r, v)
      → length v.input ≤ length w.input
  Runs-input {w = w} h e =
      subst (λ (y : Result A × World P). length y.1.input ≤ length w.input) e
        (Reach-input h.reached)
