-- ===== src/Crypto/Upload/Chunks.antt =====
-- The packets of one upload (the loop of send_encrypted_file_request in
-- src/crypto/FileAuthentication.cpp): their data, their numbers and their sizes.
use encrypted_backup_client.Base.{
  ℕ, zero, suc, ◌+◌, ◌-◌, ◌*◌, ◌/◌, ◌≤◌, ◌<◌, min, ◌≡◌, ap, sym, ◌∙◌, List, [], ◌∷◌, ◌++◌, map,
  concat, length, take, drop, drop_add, drop_all, take-append-drop, take-min, length-drop, arith,
  Text,
}
use encrypted_backup_client.Protocol.Request.{Request, set_payload_size, set_encrypted_chunk_data}
use encrypted_backup_client.Crypto.Upload.{chunk_request}

-- The requests of the packets from `packet` on, each made from the one before.
unfoldable pub requests : Text → ℕ → ℕ → ℕ → Request → List Request
requests encrypted_file chunk_size zero packet request = []
requests encrypted_file chunk_size (suc left) packet request =
    let sent = chunk_request encrypted_file chunk_size request packet in
    sent ∷ requests encrypted_file chunk_size left (packet + 1) sent

-- The data of a list of requests, joined.
abbrev pub joined_data : List Request → Text
joined_data rs = concat (map (λ r. r.payload.encrypted_chunk_data) rs)

next_offset : (packet c : ℕ) → 1 ≤ packet → (packet + 1 - 1) * c ≡ (packet - 1) * c + c
next_offset zero c h = absurd (omega arith)
next_offset (suc q) c h =
    let e : suc q + 1 - 1 ≡ suc q = omega arith in
    let f : suc q - 1 ≡ q = omega arith in rw (e, f) (omega arith)

next_reach :
    (packet left c : ℕ) → 1 ≤ packet → (packet + 1 - 1 + left) * c ≡ (packet - 1 + suc left) * c
next_reach packet left c h =
    ap (λ n. n * c) (let e : packet + 1 - 1 + left ≡ packet - 1 + suc left = omega arith in e)

module _ (encrypted_file : Text) (c : ℕ) where
  chunk_data :
      (request : Request) (packet : ℕ)
      → (chunk_request encrypted_file c request packet).payload.encrypted_chunk_data
        ≡ take c (drop ((packet - 1) * c) encrypted_file)
  unfolding chunk_request set_payload_size set_encrypted_chunk_data
  chunk_data request packet =
      let offset = (packet - 1) * c in
      let tail : Text = drop offset encrypted_file in
      let size : min c (length encrypted_file - offset) ≡ min (length tail) c =
        omega (arith, length-drop offset encrypted_file) in
      rw size (take-min c tail)

  data_from :
      (left packet : ℕ) (request : Request)
      → 1 ≤ packet
      → length encrypted_file ≤ (packet - 1 + left) * c
      → joined_data (requests encrypted_file c left packet request)
        ≡ drop ((packet - 1) * c) encrypted_file
  unfolding requests
  data_from zero packet request h l = sym (drop_all ((packet - 1) * c) encrypted_file (grind arith))
  data_from (suc left) packet request h l =
      let sent = chunk_request encrypted_file c request packet in
      let offset = (packet - 1) * c in
      let next : (packet + 1 - 1) * c ≡ offset + c = next_offset packet c h in
      let reach : length encrypted_file ≤ (packet + 1 - 1 + left) * c =
        rw (next_reach packet left c h) l in
      ap (λ (t : Text). t ++ joined_data (requests encrypted_file c left (packet + 1) sent))
        (chunk_data request packet)
      ∙ ap (◌++◌ (take c (drop offset encrypted_file))) (
          data_from left (packet + 1) sent (omega arith) reach
          ∙ ap (λ n. drop n encrypted_file) next
          ∙ sym (drop_add offset c encrypted_file))
      ∙ take-append-drop c (drop offset encrypted_file)

-- The rounded-up division by the chunk size covers the file.
covers : (n c : ℕ) → 0 < c → n ≤ (n + c - 1) / c * c
covers n c h = grind arith

covers_from_one : (n c : ℕ) → 0 < c → n ≤ (1 - 1 + (n + c - 1) / c) * c
covers_from_one n c h = omega (arith, covers n c h)

-- The data of the packets 1 to total, joined in their order, is the encrypted file: nothing is
-- lost, repeated or reordered, for every positive chunk size and the packet count of the code.
pub joined_data-requests :
    (encrypted_file : Text) (c : ℕ) (request : Request)
    → 0 < c
    → joined_data (requests encrypted_file c ((length encrypted_file + c - 1) / c) 1 request)
      ≡ encrypted_file
joined_data-requests encrypted_file c request h =
    let total = (length encrypted_file + c - 1) / c in
    data_from encrypted_file c total 1 request (omega arith)
      (covers_from_one (length encrypted_file) c h)
    ∙ ap (λ n. drop n encrypted_file) (let e : (1 - 1) * c ≡ 0 = omega arith in e)

-- The request as the last packet leaves it.
unfoldable pub last_request : Text → ℕ → ℕ → ℕ → Request → Request
last_request encrypted_file chunk_size zero packet request = request
last_request encrypted_file chunk_size (suc left) packet request =
    last_request encrypted_file chunk_size left (packet + 1)
      (chunk_request encrypted_file chunk_size request packet)
