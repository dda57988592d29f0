-- ===== src/Crypto/Upload/Received.antt =====
-- The file that the other side decrypts from an upload (src/crypto/FileAuthentication.cpp over
-- src/crypto/AESWrapper.cpp and src/protocol/request.cpp).
use mathlib.Core.Path.{subst}
use encrypted_backup_client.Base.{
  ℕ, zero, suc, ◌+◌, ◌-◌, ◌/◌, ◌^◌, ◌≤◌, ◌<◌, ◌≡◌, refl, sym, ap, ◌∙◌, some, List, [], ◌∷◌, ◌++◌,
  append_assoc, ◌%◌, length, length-append, All, arith, Text, ok,
}
use encrypted_backup_client.Protocol.Types.{max_file_size}
use encrypted_backup_client.Protocol.Bytes.{ByteOrder}
use encrypted_backup_client.Protocol.RequestCode
use encrypted_backup_client.Protocol.Request.{
  Request, RequestHeader, serialize, init_header, set_user_id, init_request,
}
use encrypted_backup_client.Protocol.Request.Initial.{
  init_header-IsHeader, set_user_id-IsHeader, set_request_code-IsHeader, sized-IsPayload,
}
use encrypted_backup_client.Protocol.Request.Layout.{IsHeader, IsPayload}
use encrypted_backup_client.System.Platform.{Platform}
use encrypted_backup_client.System.World.{World}
use encrypted_backup_client.System.Files.{aes_key_file, cl_info_file}
use encrypted_backup_client.Registration.Credentials.{load_aes_key, load_user_id}
use encrypted_backup_client.Crypto.Aes.{AesWrapper, encrypt, decrypt}
use encrypted_backup_client.Crypto.Aes.RoundTrip.{IsCipher, decrypt-encrypt}
use encrypted_backup_client.Crypto.Upload.{
  Auth, Encrypted, chunk_request, get_chunk_size, upload_request, encrypt_file,
  send_encrypted_file_request,
}
use encrypted_backup_client.Crypto.Upload.Encryption.{encrypt_file-eq-ok}
use encrypted_backup_client.Crypto.Upload.Chunks.{requests, joined_data, joined_data-requests}
use encrypted_backup_client.Crypto.Upload.Packets.{
  ArePackets, sent-IsHeader, sent-IsPayload, packet_count_bounds, upload_requests-ArePackets,
}
use encrypted_backup_client.Crypto.Upload.Sending.{IsSink, wire, send_encrypted_file_request-sent}
use encrypted_backup_client.Crypto.Upload.Receipt.{
  IsReadable, read_packet, read_packets, receive_upload, read_packet-serialize, read_packets-wire,
}

-- PKCS padding adds from 1 to 16 bytes.
pub record IsPadded (P : Platform) : Type 0 where
  pub padded :
      (key iv plain : Text)
      → (length plain < length (P.aes_cbc_encrypt key iv plain))
        × (length (P.aes_cbc_encrypt key iv plain) ≤ length plain + 16)

abbrev IsValid : Request → Type 0
IsValid r = IsHeader r.header × IsPayload r.payload

requests-AreValid :
    (encrypted_file : Text) (c left packet : ℕ) (r : Request)
    → c ≤ 2 ^ 16
    → IsValid r
    → All IsValid (requests encrypted_file c left packet r)
unfolding requests
requests-AreValid encrypted_file c zero packet r small v = tt
requests-AreValid encrypted_file c (suc left) packet r small v =
    let next : IsValid (chunk_request encrypted_file c r packet) = (
      sent-IsHeader encrypted_file c small r packet v.0,
      sent-IsPayload encrypted_file c small r packet v.1,
    ) in
    (next, requests-AreValid encrypted_file c left (packet + 1) _ small next)

length-requests :
    (encrypted_file : Text) (c left packet : ℕ) (r : Request)
    → length (requests encrypted_file c left packet r) ≡ left
unfolding requests
length-requests encrypted_file c zero packet r = refl
length-requests encrypted_file c (suc left) packet r =
    ap suc (length-requests encrypted_file c left (packet + 1) _)

some_packets : (n c : ℕ) → 0 < c → 0 < n → 0 < (n + c - 1) / c
some_packets n c h k = grind arith

module _ (o : ByteOrder) where
  packets-AreReadable :
      (file_size total number : ℕ) (rs : List Request)
      → ArePackets o file_size total number rs
      → All IsValid rs
      → All (IsReadable o) rs
  packets-AreReadable file_size total number [] p v = tt
  packets-AreReadable file_size total number (r ∷ rs) p v = (
    (v.0.0, v.0.1, p.0.payload_sized),
    packets-AreReadable file_size total (number + 1) rs p.1 v.1,
  )

  -- All packets of an upload, in front of anything.
  receive_upload-wire :
      (file_size : ℕ) (rs : List Request) (more : Text)
      → 0 < length rs
      → ArePackets o file_size (length rs) 1 rs
      → All (IsReadable o) rs
      → receive_upload o (wire o rs ++ more) ≡ some (joined_data rs, more)
  unfolding receive_upload
  receive_upload-wire file_size [] more filled p h = absurd (omega arith)
  receive_upload-wire file_size (r ∷ rs) more filled p h =
      let first =
        ap (read_packet o) (append_assoc (serialize o r) (wire o rs) more)
        ∙ read_packet-serialize o r (wire o rs ++ more) h.0 in
      let all_read =
        ap (λ n. read_packets o n (wire o (r ∷ rs) ++ more)) p.0.counted
        ∙ read_packets-wire o (r ∷ rs) more h in
      rw (first, receive_upload, all_read) refl

  upload-received :
      (encrypted_file file_name user_id : Text) (header : RequestHeader) (file_size : ℕ)
      (more : Text)
      → set_user_id user_id init_header ≡ ok header
      → file_size ≤ max_file_size
      → length encrypted_file ≤ file_size + 32
      → 0 < length encrypted_file
      → let c = get_chunk_size file_size in
        let total = (length encrypted_file + c - 1) / c in
        let r = upload_request header file_name file_size total in
        receive_upload o (wire o (requests encrypted_file c total 1 r) ++ more)
        ≡ some (encrypted_file, more)
  unfolding upload_request init_request
  upload-received encrypted_file file_name user_id header file_size more set limit padded filled =
      let c = get_chunk_size file_size in
      let total = (length encrypted_file + c - 1) / c in
      let r = upload_request header file_name file_size total in
      let (_, positive, small) =
        packet_count_bounds file_size (length encrypted_file) limit padded in
      let rs = requests encrypted_file c total 1 r in
      let count = length-requests encrypted_file c total 1 r in
      let header_valid = set_user_id-IsHeader user_id init_header header init_header-IsHeader set in
      let valid : IsValid r = (
        set_request_code-IsHeader RequestCode.create_backup header header_valid (omega arith),
        sized-IsPayload file_name (file_size % 2 ^ 32) (total % 2 ^ 16) (omega arith) (omega arith),
      ) in
      let packets =
        upload_requests-ArePackets o encrypted_file file_name user_id header file_size set limit
          padded in
      let readable =
        packets-AreReadable file_size total 1 rs packets
          (requests-AreValid encrypted_file c total 1 r small valid) in
      let counted = subst (λ n. ArePackets o file_size n 1 rs) (sym count) packets in
      receive_upload-wire file_size rs more
        (rw count (some_packets (length encrypted_file) c positive filled)) counted readable
      ∙ ap (λ (d : Text). some (d, more)) (joined_data-requests encrypted_file c r positive)

module _ (P : Platform) (sink : IsSink P) (cipher : IsCipher P) (pads : IsPadded P) where
  length-encrypt :
      (aes : AesWrapper) (plain : Text) (random : P.Random)
      → (0 < length (encrypt P aes plain random).0)
        × (length (encrypt P aes plain random).0 ≤ length plain + 32)
  unfolding encrypt
  length-encrypt aes plain random =
      let iv : Text = (P.generate_block 16 random).0 in
      let body : Text = P.aes_cbc_encrypt aes.key iv plain in
      let size : length iv ≡ 16 = cipher.length-generate_block 16 random in
      let (more, few) = pads.padded aes.key iv plain in
      (omega (arith, length-append iv body), omega (arith, length-append iv body))

  -- On a connected socket, an upload whose file was encrypted under the stored AES key, for a stored
  -- user ID that is hexadecimal, succeeds, and what it has written is read back, in front of any more
  -- bytes, by a receiver that takes each packet by the size that its header declares, as many as the
  -- first packet counts, and joins their data: the receiver gets a text that the same AES key
  -- decrypts to the bytes of the file. Decryption inverts encryption, a random block has its size,
  -- and the padding adds at most 16 bytes.
  pub send_encrypted_file_request-received :
      (file_path file_name user_id key more : Text) (e : Encrypted) (header : RequestHeader)
      (s : Auth P) (w : World P)
      → encrypt_file P file_path file_name s.world ≡ (ok e, w)
      → load_aes_key P aes_key_file s.world ≡ (ok key, s.world)
      → load_user_id P cl_info_file w ≡ (ok user_id, w)
      → set_user_id user_id init_header ≡ ok header
      → (u : Auth P) × (bytes : Text) × (encrypted_file : Text) × (send_encrypted_file_request P
            file_path file_name s
          ≡ (ok e.file_data, u))
        × (sink.sent u.world.socket ≡ sink.sent w.socket ++ bytes)
        × (receive_upload P.host.order (bytes ++ more) ≡ some (encrypted_file, more))
        × (decrypt P (record { key = key }) (some encrypted_file) ≡ ok e.file_data)
  send_encrypted_file_request-received file_path file_name user_id key more e header s w encrypted
        keyed loaded set =
      let c = get_chunk_size e.file_size in
      let total = (length e.encrypted_file + c - 1) / c in
      let r = upload_request header file_name e.file_size total in
      let (t, out, uploaded, written) =
        send_encrypted_file_request-sent P sink file_path file_name user_id e header s w encrypted
          loaded set in
      let (same, limit, whole, _) =
        encrypt_file-eq-ok P file_path file_name key e s.world w encrypted keyed in
      let (filled, padded) = length-encrypt (record { key = key }) e.file_data s.world.random in
      let size = ap length same in
      (
        _,
        wire P.host.order (requests e.encrypted_file c total 1 r),
        e.encrypted_file,
        uploaded,
        written,
        upload-received P.host.order e.encrypted_file file_name user_id header e.file_size more set
            limit (omega arith) (omega arith),
        rw same (decrypt-encrypt P cipher (record { key = key }) e.file_data s.world.random),
      )
