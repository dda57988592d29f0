-- ===== src/Trace/Communication.antt =====
-- Receiving (src/core/CommunicationManager.cpp) through the steps of the client.
use encrypted_backup_client.Base.{ℕ, ltb, Option, none, some, Error, refl, Text}
use encrypted_backup_client.System.Platform.{Platform}
use encrypted_backup_client.System.World.{World}
use encrypted_backup_client.Core.Communication.{
  after_read, read_exactly, read_payload, receive_response,
}
use encrypted_backup_client.Trace.Steps.{Step, received}
use encrypted_backup_client.Trace.Rules.{
  ok-IsReal, err-IsReal, IsThrown, Runs, Runs-bind, Runs-lift, Runs-branch, Runs-step,
}
use encrypted_backup_client.Trace.Results.{deserialize-IsReal}

module _ (P : Platform) where
  after_read-Runs :
      (e : Error) (w : World P) (x : Option Text × P.Socket)
      → IsThrown e
      → Step w (record w { socket = x.1 })
      → Runs w (after_read P e x w)
  after_read-Runs e w (some bytes, s) h step = Runs-step ok-IsReal step
  after_read-Runs e w (none, s) h step = Runs-step (err-IsReal e h) step

  read_exactly-Runs : (n : ℕ) (e : Error) (w : World P) → IsThrown e → Runs w (read_exactly P n e w)
  unfolding read_exactly
  read_exactly-Runs n e w h = after_read-Runs e w _ h (received n refl)

  read_payload-Runs : (n : ℕ) (w : World P) → Runs w (read_payload P n w)
  unfolding read_payload
  read_payload-Runs n w =
      Runs-branch (ltb 0 n) _ _ (λ _. read_exactly-Runs n _ w tt) (λ _. Runs-lift ok-IsReal)

  pub receive_response-Runs : (w : World P) → Runs w (receive_response P w)
  unfolding receive_response
  receive_response-Runs w = Runs-bind (read_exactly-Runs _ _ w tt) (λ header v _.
      Runs-bind (read_payload-Runs _ v) (λ payload u _. Runs-lift (deserialize-IsReal P.host _)))
