-- ===== src/Core/Communication/Framing.antt =====
-- One response is one frame of the stream (src/core/CommunicationManager.cpp).
use encrypted_backup_client.Base.{
  ℕ, ◌+◌, ◌≤◌, ◌≡◌, ap, sym, ◌∙◌, some, [], ◌++◌, lt→ltb, length, take, drop, slice, drop_add,
  take_add, drop-take, take-take, length-drop, take-append, drop-append, arith, Text, IsBytes, ok,
}
use encrypted_backup_client.Protocol.Bytes.{IsNetworkOrder, object_value}
use encrypted_backup_client.Protocol.Response.{Response}
use encrypted_backup_client.Protocol.Response.Reference.{ntohl_slice}
use encrypted_backup_client.Protocol.Response.RoundTrip.{
  IsResponse, write_response, write_response-append, length-write_response, IsBytes-write_response,
  read_header_fields, deserialize-write_response,
}
use encrypted_backup_client.System.Platform.{Platform}
use encrypted_backup_client.System.World.{World}
use encrypted_backup_client.Core.Communication.{read_exactly, read_payload, receive_response}

-- A socket whose peer has sent, or will send, the pending bytes. "Read a certain amount of data
-- before returning": a read of no more than these gives the first of them.
pub record IsStream (P : Platform) : Type 0 where
  pub pending : P.Socket → Text
  pub asio_read-pending :
      (n : ℕ) (s : P.Socket)
      → n ≤ length (pending s)
      → (t : P.Socket) × (P.asio_read n s ≡ (some (take n (pending s)), t))
        × (pending t ≡ drop n (pending s))

frame_size :
    (r : Response) → IsResponse r → length (write_response r []) ≡ 7 + r.header.payload_size
frame_size r v = omega (arith, length-write_response r [] v)

whole_frame :
    (r : Response) (rest : Text)
    → IsResponse r
    → take 7 (write_response r rest) ++ take r.header.payload_size (drop 7 (write_response r rest))
      ≡ write_response r []
whole_frame r rest v =
    sym (take_add 7 r.header.payload_size (write_response r rest))
    ∙ ap (take (7 + r.header.payload_size)) (write_response-append r rest)
    ∙ take-append _ (write_response r []) rest (frame_size r v)

behind_frame :
    (r : Response) (rest : Text)
    → IsResponse r
    → drop r.header.payload_size (drop 7 (write_response r rest)) ≡ rest
behind_frame r rest v =
    drop_add 7 r.header.payload_size (write_response r rest)
    ∙ ap (drop (7 + r.header.payload_size)) (write_response-append r rest)
    ∙ drop-append _ (write_response r []) rest (frame_size r v)

module _ (P : Platform) (stream : IsStream P) (net : IsNetworkOrder P.host) where
  -- The size field is the same in the first 7 bytes.
  announced_size :
      (r : Response) (rest : Text)
      → IsResponse r
      → IsBytes rest
      → P.host.ntohl (object_value P.host.order (slice 3 4 (take 7 (write_response r rest))))
        ≡ r.header.payload_size
  announced_size r rest v more =
      let wire = write_response r rest in
      let size = length-write_response r rest v in
      ap (λ (t : Text). P.host.ntohl (object_value P.host.order (take 4 t))) (drop-take 3 4 wire)
      ∙ ap (λ (t : Text). P.host.ntohl (object_value P.host.order t)) (take-take 4 (drop 3 wire))
      ∙ ntohl_slice P.host net wire (IsBytes-write_response r rest v more) 3 (omega arith)
      ∙ (read_header_fields r rest v).2

  -- A read of the first n bytes of what is pending, put as an equation.
  read_pending :
      (n : ℕ) (s : P.Socket) (bytes : Text)
      → stream.pending s ≡ bytes
      → n ≤ length bytes
      → (t : P.Socket) × (P.asio_read n s ≡ (some (take n bytes), t))
        × (stream.pending t ≡ drop n bytes)
  read_pending n s bytes e h =
      let (t, p, q) = stream.asio_read-pending n s (rw e h) in (t, rw e at p, rw e at q)

  -- A response whose fields have their sizes and ranges, and whose bytes are the next on the
  -- stream, is received as it was written, and exactly its bytes are consumed.
  pub receive_response-write_response :
      (w : World P) (r : Response) (rest : Text)
      → IsResponse r
      → IsBytes rest
      → stream.pending w.socket ≡ write_response r rest
      → (s : P.Socket) × (receive_response P w ≡ (ok r, record w { socket = s }))
        × (stream.pending s ≡ rest)
  unfolding receive_response read_exactly read_payload
  receive_response-write_response w r rest v more sent =
      let size = length-write_response r rest v in
      let n = r.header.payload_size in
      let wire = write_response r rest in
      let (t, first, after) = read_pending 7 w.socket wire sent (omega arith) in
      let (u, second, left) =
        read_pending n t (drop 7 wire) after (omega (arith, length-drop 7 wire)) in
      (
        u,
        rw (
          first,
          announced_size r rest v more,
          lt→ltb 0 n (omega arith),
          second,
          whole_frame r rest v,
          deserialize-write_response P.host r [] net v tt,
        ),
        left ∙ behind_frame r rest v,
      )
