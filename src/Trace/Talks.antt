-- ===== src/Trace/Talks.antt =====
-- How a computation that sends runs: through a session, from one phase to another if it returns. One
-- rule for each way in which the code is put together.
use mathlib.Core.Path.{subst}
use encrypted_backup_client.Base.{
  ℕ, ◌≡◌, ◌≤◌, refl, sym, length, Bool, true, false, if◌then◌else◌, Result, ok, err,
}
use encrypted_backup_client.Protocol.Request.{Request}
use encrypted_backup_client.System.State.{M, continue}
use encrypted_backup_client.System.Platform.{Platform}
use encrypted_backup_client.System.World.{World}
use encrypted_backup_client.Crypto.Upload.{Auth, keep_auth}
use encrypted_backup_client.Core.Communication.{after_write, send_request}
use encrypted_backup_client.Trace.Steps.{IsRequest, Step, Reach, one_step}
use encrypted_backup_client.Trace.Session.{
  Phase, Moves, IsServing, Session, start, wrote, Session-trans, Session-Reach, Session-input,
}
use encrypted_backup_client.Trace.Rules.{IsReal, ok-IsReal, rethrown, Runs, RunsAuth}

abbrev pub IsOk : {A : Type 0} → Result A → Type 0
IsOk (ok a) = Unit
IsOk (err e) = ⊥

-- What an operation from phase p comes to: a session, to phase q if it returns. A client that is
-- served does not lose that by an exception.
pub record Talks {P : Platform} {S A : Type 0} (place : S → World P) (p q : Phase) (s : S)
    (x : Result A × S) : Type 0 where
  pub real : IsReal x.0
  pub phase : Phase
  pub session : Session p (place s) phase (place x.1)
  pub after : IsOk x.0 → phase ≡ q
  pub served : IsServing p → IsServing phase

-- On the world, and on the members of `FileAuthentication`.
abbrev pub TalksWorld :
    {P : Platform} {A : Type 0} → Phase → Phase → World P → Result A × World P → Type 0
TalksWorld p q w x = Talks (λ v. v) p q w x

abbrev pub TalksAuth :
    {P : Platform} {A : Type 0} → Phase → Phase → Auth P → Result A × Auth P → Type 0
TalksAuth {P} p q s x = Talks (λ (t : Auth P). t.world) p q s x

module _ {P : Platform} {S A B : Type 0} {place : S → World P} {p q t : Phase} where
  pub Talks-bind :
      {s : S} {x : Result A × S} {f : A → M S B}
      → Talks place p q s x
      → ((a : A) (v : S) → x ≡ (ok a, v) → Talks place q t v (f a v))
      → Talks place p t s (continue x f)
  Talks-bind {x = (ok a, v)} {f = f} h k =
      let rest = k a v refl in
      record {
        real = rest.real;
        phase = rest.phase;
        session = Session-trans h.session (
            subst (λ r. Session r (place v) rest.phase (place (f a v).1)) (sym (h.after tt))
              rest.session);
        after = rest.after;
        served = λ serves. rest.served (subst IsServing (h.after tt) (h.served serves));
      }
  Talks-bind {x = (err e, v)} h k = record {
    real = rethrown h.real;
    phase = h.phase;
    session = h.session;
    after = λ never. absurd never;
    served = h.served;
  }

module _ {P : Platform} {S A : Type 0} {place : S → World P} {p : Phase} where
  -- An operation that sends nothing.
  pub Talks-still :
      {s : S} {x : Result A × S} → IsReal x.0 → Reach (place s) (place x.1) → Talks place p p s x
  Talks-still real reached = record {
    real = real;
    phase = p;
    session = Session-Reach reached;
    after = λ _. refl;
    served = λ serves. serves;
  }

  pub Talks-branch :
      {q : Phase} {s : S} (b : Bool) (m n : M S A)
      → (b ≡ true → Talks place p q s (m s))
      → (b ≡ false → Talks place p q s (n s))
      → Talks place p q s ((if b then m else n) s)
  Talks-branch true m n h k = h refl
  Talks-branch false m n h k = k refl

  pub Talks-if :
      {q : Phase} {s : S} (b : Bool) {x y : Result A × S}
      → (b ≡ true → Talks place p q s x)
      → (b ≡ false → Talks place p q s y)
      → Talks place p q s (if b then x else y)
  Talks-if true h k = h refl
  Talks-if false h k = k refl

module _ {P : Platform} {A : Type 0} {p : Phase} where
  pub Talks-Runs : {w : World P} {x : Result A × World P} → Runs w x → TalksWorld p p w x
  Talks-Runs h = Talks-still h.real h.reached

  pub Talks-RunsAuth : {s : Auth P} {x : Result A × Auth P} → RunsAuth s x → TalksAuth p p s x
  Talks-RunsAuth h = Talks-still h.real h.reached

  pub Talks-after :
      {q : Phase} {w v : World P} {x : Result A × World P}
      → Step w v
      → TalksWorld p q v x
      → TalksWorld p q w x
  Talks-after step h = record {
    real = h.real;
    phase = h.phase;
    session = Session-trans (Session-Reach (one_step step)) h.session;
    after = h.after;
    served = h.served;
  }

  pub Talks-keep_auth :
      {q : Phase} (s : Auth P) {x : Result A × World P}
      → TalksWorld p q s.world x
      → TalksAuth p q s (keep_auth s x)
  Talks-keep_auth s h = record {
    real = h.real;
    phase = h.phase;
    session = h.session;
    after = h.after;
    served = h.served;
  }

  -- A statement gives no input back.
  pub Talks-input :
      {q : Phase} {w v : World P} {x : Result A × World P} {r : Result A}
      → TalksWorld p q w x
      → x ≡ (r, v)
      → length v.input ≤ length w.input
  Talks-input {w = w} h e =
      subst (λ (y : Result A × World P). length y.1.input ≤ length w.input) e
        (Session-input h.session)

module _ (P : Platform) where
  after_write-Talks :
      (p q : Phase) (w : World P) (x : Bool × P.Socket)
      → Session p w q (record w { socket = x.1 })
      → (IsServing p → IsServing q)
      → TalksWorld p q w (after_write P x w)
  after_write-Talks p q w (true, s) h k = record {
    real = ok-IsReal;
    phase = q;
    session = h;
    after = λ _. refl;
    served = k;
  }
  after_write-Talks p q w (false, s) h k = record {
    real = λ e. cc;
    phase = q;
    session = h;
    after = λ never. absurd never;
    served = k;
  }

  -- A request that the phase allows is written, wholly or not.
  pub send_request-Talks :
      (p q : Phase) (code : ℕ) (r : Request) (w : World P)
      → IsRequest P.host.order r
      → r.header.request_code ≡ code
      → Moves p code q
      → (IsServing p → IsServing q)
      → TalksWorld p q w (send_request P r w)
  unfolding send_request
  send_request-Talks p q code r w valid coded m k =
      after_write-Talks p q w _
        (wrote start r valid (subst (λ (c : ℕ). Moves p c q) (sym coded) m) refl) k
