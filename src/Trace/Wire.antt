-- ===== src/Trace/Wire.antt =====
-- What the client writes to its socket (all of src/).
use encrypted_backup_client.Base.{
  ℕ, ◌≡◌, sym, ap, ◌∙◌, List, [], ◌∷◌, ◌++◌, append_assoc, append-nil, All, All-append, Text,
}
use encrypted_backup_client.Protocol.Bytes.{ByteOrder}
use encrypted_backup_client.Protocol.Request.{Request, serialize}
use encrypted_backup_client.System.Platform.{Platform}
use encrypted_backup_client.System.World.{World}
use encrypted_backup_client.Crypto.Upload.Sending.{IsSink, wire}
use encrypted_backup_client.Main.{main}
use encrypted_backup_client.Trace.Steps.{
  IsRequest, Step, received, connected, closed, drew, printed, took, stored,
}
use encrypted_backup_client.Trace.Session.{
  Phase, fresh, serving, Moves, Session, start, quiet, forgets, wrote,
}
use encrypted_backup_client.Trace.Client.{main-Ends}

-- A sink that only writing adds to.
pub record IsTap (P : Platform) : Type 0 where
  pub sink : IsSink P
  pub asio_read-sent : (n : ℕ) (s : P.Socket) → sink.sent (P.asio_read n s).1 ≡ sink.sent s
  pub connect-sent : (e : P.Endpoints) (s : P.Socket) → sink.sent (P.connect e s).1 ≡ sink.sent s
  pub close-sent : (s : P.Socket) → sink.sent (P.close s).1 ≡ sink.sent s

wire-append :
    (o : ByteOrder) (rs : List Request) (r : Request)
    → wire o (rs ++ (r ∷ [])) ≡ wire o rs ++ serialize o r
wire-append o [] r = append-nil _
wire-append o (q ∷ rs) r =
    ap (◌++◌ (serialize o q)) (wire-append o rs r)
    ∙ sym (append_assoc (serialize o q) (wire o rs) (serialize o r))

-- A list of requests in the order of the diagram. Of the reports of CRC errors the diagram counts a
-- lower bound, which may be dropped.
pub data Converses (p : Phase) : List Request → Phase → Type 0 where
  silent : Converses p [] p
  said :
      {q t : Phase} {rs : List Request}
      → Converses p rs q
      → (r : Request) → Moves q r.header.request_code t
      → Converses p (rs ++ (r ∷ [])) t
  forgotten : {k : ℕ} {rs : List Request} → Converses p rs (serving k) → Converses p rs (serving 0)

module _ (P : Platform) (tap : IsTap P) where
  abbrev sent : World P → Text
  sent w = tap.sink.sent w.socket

  -- Behind what was sent before, well-formed requests in their order and nothing else.
  pub record HasSent (p : Phase) (w : World P) (q : Phase) (v : World P) : Type 0 where
    pub requests : List Request
    pub valid : All (IsRequest P.host.order) requests
    pub written : sent v ≡ sent w ++ wire P.host.order requests
    pub ordered : Converses p requests q

  silently : {p q : Phase} {w u v : World P} → HasSent p w q u → sent v ≡ sent u → HasSent p w q v
  silently h e = record {
    requests = h.requests;
    valid = h.valid;
    written = e ∙ h.written;
    ordered = h.ordered;
  }

  Step-sent : (u v : World P) → Step u v → sent v ≡ sent u
  Step-sent u v (received n e) = ap sent e ∙ tap.asio_read-sent n u.socket
  Step-sent u v (connected n e) = ap sent e ∙ tap.connect-sent n u.socket
  Step-sent u v (closed e) = ap sent e ∙ tap.close-sent u.socket
  Step-sent u v (drew random e) = ap sent e
  Step-sent u v (printed line e) = ap sent e
  Step-sent u v (took input l e) = ap sent e
  Step-sent u v (stored path entry own e) = ap sent e

  asio_write_sent :
      (bytes : Text) (s : P.Socket)
      → tap.sink.sent (P.asio_write bytes s).1 ≡ tap.sink.sent s ++ bytes
  asio_write_sent bytes s = let (t, e, q) = tap.sink.asio_write-sent bytes s in rw e q

  Session-HasSent :
      {p : Phase} {w : World P} {q : Phase} {v : World P} → Session p w q v → HasSent p w q v
  Session-HasSent start = record {
    requests = [];
    valid = tt;
    written = sym (append-nil _);
    ordered = silent;
  }
  Session-HasSent (quiet s step) = silently (Session-HasSent s) (Step-sent _ _ step)
  Session-HasSent (forgets s) =
      let h = Session-HasSent s in
      record {
        requests = h.requests;
        valid = h.valid;
        written = h.written;
        ordered = forgotten h.ordered;
      }
  Session-HasSent {w = w} (wrote {u = u} s r valid m e) =
      let h = Session-HasSent s in
      record {
        requests = h.requests ++ (r ∷ []);
        valid = All-append _ h.requests (r ∷ []) h.valid (valid, tt);
        written =
            ap sent e
            ∙ asio_write_sent (serialize P.host.order r) u.socket
            ∙ ap (λ (t : Text). t ++ serialize P.host.order r) h.written
            ∙ append_assoc (sent w) (wire P.host.order h.requests) (serialize P.host.order r)
            ∙ ap (◌++◌ (sent w)) (sym (wire-append P.host.order h.requests r));
        ordered = said h.ordered r m;
      }

  -- On a socket whose writes succeed and whose other operations send nothing, all that a run of the
  -- client writes, from the start to the end, is a sequence of serialized requests: each of version
  -- 3 and with one of the eight codes of the protocol, with arrays of their sizes and numbers in
  -- their ranges, and with exactly the payload bytes that its header declares unless it is the
  -- disconnect request. The requests follow the diagram of the protocol: registrations and then one
  -- public key, or one re-registration; then packets and reports on files, with the report of a
  -- failure only behind two or more reports of a CRC error since the last report of another kind; and
  -- behind a disconnect request only another one. No reply of the server and no input makes the client
  -- write anything else.
  pub main-HasSent : (w : World P) → (q : Phase) × HasSent fresh w q (main P w).1
  main-HasSent w = let ended = main-Ends P w in (ended.phase, Session-HasSent ended.session)
