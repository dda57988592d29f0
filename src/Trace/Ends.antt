-- ===== src/Trace/Ends.antt =====
-- How a computation that may say goodbye ends: in some phase of a session.
use mathlib.Core.Path.{subst}
use encrypted_backup_client.Base.{◌≡◌, refl, sym, Bool, true, false, if◌then◌else◌, Result, ok, err}
use encrypted_backup_client.System.State.{M, continue}
use encrypted_backup_client.System.Platform.{Platform}
use encrypted_backup_client.System.World.{World}
use encrypted_backup_client.Trace.Session.{Phase, Session, Session-trans, Session-Reach}
use encrypted_backup_client.Trace.Rules.{IsReal, rethrown, Runs}
use encrypted_backup_client.Trace.Talks.{TalksWorld}

-- From phase p, a session to any phase.
pub record Ends {P : Platform} {A : Type 0} (p : Phase) (w : World P) (x : Result A × World P)
    : Type 0 where
  pub real : IsReal x.0
  pub phase : Phase
  pub session : Session p w phase x.1

module _ {P : Platform} {A B : Type 0} {p : Phase} {w : World P} where
  pub Ends-behind :
      {q : Phase} {x : Result A × World P} {f : A → M (World P) B}
      → TalksWorld p q w x
      → ((a : A) (v : World P) → x ≡ (ok a, v) → Ends q v (f a v))
      → Ends p w (continue x f)
  Ends-behind {x = (ok a, v)} {f = f} h k =
      let rest = k a v refl in
      record {
        real = rest.real;
        phase = rest.phase;
        session =
            Session-trans h.session
              (subst (λ r. Session r v rest.phase (f a v).1) (sym (h.after tt)) rest.session);
      }
  Ends-behind {x = (err e, v)} h k = record {
    real = rethrown h.real;
    phase = h.phase;
    session = h.session;
  }

  -- Behind the end nothing more is sent.
  pub Ends-bind :
      {x : Result A × World P} {f : A → M (World P) B}
      → Ends p w x
      → ((a : A) (v : World P) → x ≡ (ok a, v) → Runs v (f a v))
      → Ends p w (continue x f)
  Ends-bind {x = (ok a, v)} h k =
      let rest = k a v refl in
      record {
        real = rest.real;
        phase = h.phase;
        session = Session-trans h.session (Session-Reach rest.reached);
      }
  Ends-bind {x = (err e, v)} h k = record {
    real = rethrown h.real;
    phase = h.phase;
    session = h.session;
  }

module _ {P : Platform} {A : Type 0} {p : Phase} {w : World P} where
  pub Ends-Runs : {x : Result A × World P} → Runs w x → Ends p w x
  Ends-Runs h = record { real = h.real; phase = p; session = Session-Reach h.reached }

  pub Ends-after :
      {q : Phase} {v : World P} {x : Result A × World P} → Session p w q v → Ends q v x → Ends p w x
  Ends-after s h = record { real = h.real; phase = h.phase; session = Session-trans s h.session }

  pub Ends-if :
      (b : Bool) {x y : Result A × World P}
      → (b ≡ true → Ends p w x)
      → (b ≡ false → Ends p w y)
      → Ends p w (if b then x else y)
  Ends-if true h k = h refl
  Ends-if false h k = k refl
