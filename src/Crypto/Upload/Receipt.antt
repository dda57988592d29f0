-- ===== src/Crypto/Upload/Receipt.antt =====
-- What the other side makes of an upload: an independent reader of the packets on the wire (the format
-- of src/protocol/request.cpp, in the order of src/crypto/FileAuthentication.cpp).
use encrypted_backup_client.Base.{
  ℕ, zero, suc, ◌+◌, ◌≡◌, refl, ap, ◌∙◌, false, Option, none, some, List, [], ◌∷◌, ◌++◌,
  append_assoc, ltb, if◌then◌else◌, length, length-append, take, drop, slice, take-append,
  drop-append, All, arith, Text,
}
use encrypted_backup_client.Protocol.Bytes.{ByteOrder, object_value}
use encrypted_backup_client.Protocol.Request.{Request, serialize}
use encrypted_backup_client.Protocol.Request.Layout.{
  IsHeader, IsPayload, read_request, read_request-serialize, header_bytes, read_header,
  payload_bytes,
}
use encrypted_backup_client.Crypto.Upload.Chunks.{joined_data}
use encrypted_backup_client.Crypto.Upload.Sending.{wire}

-- A packet has the 23 bytes of its header and as many as the header declares; the rest stays.
unfoldable pub read_packet : ByteOrder → Text → Option (Request × Text)
read_packet o d =
    let size = 23 + object_value o (slice 19 4 d) in
    if ltb (length d) size then none else some (read_request o (take size d), drop size d)

abbrev consed : Request → Option (List Request × Text) → Option (List Request × Text)
consed r none = none
consed r (some (rs, rest)) = some (r ∷ rs, rest)

unfoldable pub read_packets : ByteOrder → ℕ → Text → Option (List Request × Text)
read_packets o zero d = some ([], d)
read_packets o (suc n) d = elim (read_packet o d) [
  | none ↦ none
  | some (r, rest) ↦ consed r (read_packets o n rest)
]

-- The first packet says how many there are; the file is their data in their order.
unfoldable pub receive_upload : ByteOrder → Text → Option (Text × Text)
receive_upload o d = elim (read_packet o d) [
  | none ↦ none
  | some (first, _) ↦ elim (read_packets o first.payload.total_packets d) [
    | none ↦ none
    | some (rs, rest) ↦ some (joined_data rs, rest)
  ]
]

module _ (o : ByteOrder) where
  -- What a reader relies on.
  abbrev pub IsReadable : Request → Type 0
  IsReadable r =
      IsHeader r.header
      × IsPayload r.payload
      × (length (serialize o r) ≡ 23 + r.header.payload_size)

  serialize-append :
      (r : Request) (h : IsHeader r.header) (more : Text)
      → serialize o r ++ more ≡ header_bytes o r.header h (payload_bytes o r.payload ++ more)
  unfolding serialize
  serialize-append r h more = simp (append_assoc)

  -- A packet is read back in front of anything.
  pub read_packet-serialize :
      (r : Request) (more : Text)
      → IsReadable r
      → read_packet o (serialize o r ++ more) ≡ some (r, more)
  unfolding read_packet
  read_packet-serialize r more (h, p, sized) =
      let head =
        ap (λ (d : Text). object_value o (slice 19 4 d)) (serialize-append r h more)
        ∙ (read_header o r.header h (payload_bytes o r.payload ++ more)).3 in
      let size = 23 + r.header.payload_size in
      let fits : ltb (length (serialize o r ++ more)) size ≡ false =
        let total = length-append (serialize o r) more in ground arith in
      rw
        (
          head,
          fits,
          take-append size (serialize o r) more sized,
          drop-append size (serialize o r) more sized,
          read_request-serialize o r h p,
        )
        refl

  pub read_packets-wire :
      (rs : List Request) (more : Text)
      → All IsReadable rs
      → read_packets o (length rs) (wire o rs ++ more) ≡ some (rs, more)
  unfolding read_packets
  read_packets-wire [] more h = refl
  read_packets-wire (r ∷ rs) more h =
      let split = append_assoc (serialize o r) (wire o rs) more in
      rw
        (
          split,
          read_packet-serialize r (wire o rs ++ more) h.0,
          read_packets,
          read_packets-wire rs more h.1,
        )
        refl
