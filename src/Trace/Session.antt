-- ===== src/Trace/Session.antt =====
-- The order of the requests in a session of the client (the workflow of src/core/ClientHandler.cpp over
-- src/registration and src/crypto/FileAuthentication.cpp), as a transition diagram.
use encrypted_backup_client.Base.{ℕ, suc, ◌≤◌, ◌≡◌, refl, ◌∙◌, length, arith}
use encrypted_backup_client.Protocol.RequestCode
use encrypted_backup_client.Protocol.Request.{Request, serialize}
use encrypted_backup_client.System.Platform.{Platform}
use encrypted_backup_client.System.World.{World}
use encrypted_backup_client.Trace.Steps.{
  IsRequest, Step, Step-current_path, Step-input, Reach, here, next,
}

-- What was sent so far: nothing, a registration, all that identifies the client and behind it at least
-- so many reports of a CRC error since the last report of another kind, or the goodbye.
pub data Phase : Type 0 where
  fresh : Phase
  registering : Phase
  serving : ℕ → Phase
  left : Phase

-- The request codes that lead from a phase to the next.
pub data Moves : Phase → ℕ → Phase → Type 0 where
  registers : Moves fresh RequestCode.registration registering
  registers_again : Moves registering RequestCode.registration registering
  sends_key : Moves registering RequestCode.public_key_send (serving 0)
  returns : Moves fresh RequestCode.re_registration (serving 0)
  uploads : {k : ℕ} → Moves (serving k) RequestCode.create_backup (serving k)
  confirms : {k : ℕ} → Moves (serving k) RequestCode.crc_success (serving 0)
  rejects : {k : ℕ} → Moves (serving k) RequestCode.crc_error (serving (suc k))
  gives_up : {k : ℕ} → 2 ≤ k → Moves (serving k) RequestCode.crc_failure (serving 0)
  leaves : {p : Phase} → Moves p RequestCode.disconnect left

abbrev pub IsServing : Phase → Type 0
IsServing fresh = ⊥
IsServing registering = ⊥
IsServing (serving k) = Unit
IsServing left = ⊥

-- A part of a session, from one phase and world to another.
pub data Session {P : Platform} (p : Phase) (w : World P) : Phase → World P → Type 0 where
  start : Session p w p w
  quiet : {q : Phase} {u v : World P} → Session p w q u → Step u v → Session p w q v
  -- The count is a lower bound, so it may be dropped.
  forgets : {k : ℕ} {u : World P} → Session p w (serving k) u → Session p w (serving 0) u
  wrote :
      {q t : Phase} {u v : World P}
      → Session p w q u
      → (r : Request) → IsRequest P.host.order r
      → Moves q r.header.request_code t
      → v ≡ record u { socket = (P.asio_write (serialize P.host.order r) u.socket).1 }
      → Session p w t v

module _ {P : Platform} where
  pub Session-trans :
      {p q : Phase} {u v : World P} {t : Phase} {w : World P}
      → Session p u q v
      → Session q v t w
      → Session p u t w
  Session-trans s start = s
  Session-trans s (quiet h step) = quiet (Session-trans s h) step
  Session-trans s (forgets h) = forgets (Session-trans s h)
  Session-trans s (wrote h r valid m e) = wrote (Session-trans s h) r valid m e

  pub Session-Reach : {p : Phase} {v w : World P} → Reach v w → Session p v p w
  Session-Reach here = start
  Session-Reach (next r step) = quiet (Session-Reach r) step

  -- The client never changes its directory.
  pub Session-current_path :
      {p : Phase} {w : World P} {q : Phase} {v : World P}
      → Session p w q v
      → v.current_path ≡ w.current_path
  Session-current_path start = refl
  Session-current_path (quiet h step) = Step-current_path _ _ step ∙ Session-current_path h
  Session-current_path (forgets h) = Session-current_path h
  Session-current_path (wrote h r valid m e) = let before = Session-current_path h in cc

  -- Input is only taken.
  pub Session-input :
      {p : Phase} {w : World P} {q : Phase} {v : World P}
      → Session p w q v
      → length v.input ≤ length w.input
  Session-input start = omega arith
  Session-input (quiet h step) = omega (arith, Session-input h, Step-input _ _ step)
  Session-input (forgets h) = Session-input h
  Session-input (wrote h r valid m e) = let before = Session-input h in ground arith
