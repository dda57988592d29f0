-- ===== src/Crypto/Upload/Packets.antt =====
-- The header and the numbers of every packet of an upload (src/crypto/FileAuthentication.cpp): they
-- agree with what is serialized, and none of the casts to the field types changes a value.
use encrypted_backup_client.Base.{
  ℕ, zero, suc, ◌+◌, ◌-◌, ◌*◌, ◌/◌, ◌%◌, ◌^◌, ◌≤◌, ◌<◌, min, ◌≡◌, List, [], ◌∷◌, length, drop,
  length-drop, length-take, arith, Text, ok,
}
use encrypted_backup_client.Protocol.Bytes.{ByteOrder}
use encrypted_backup_client.Protocol.Request.{
  Request, init_request, set_file_name, RequestHeader, init_header, set_user_id, set_file_size,
  set_total_packets, serialize, set_payload_size, set_encrypted_chunk_data,
  set_encrypted_chunk_size, set_packet_number,
}
use encrypted_backup_client.Protocol.RequestCode
use encrypted_backup_client.Protocol.Types.{max_file_size}
use encrypted_backup_client.Protocol.Request.Initial.{
  sized-IsPayload, set_request_code-IsHeader, init_header-IsHeader, set_user_id-IsHeader,
}
use encrypted_backup_client.Protocol.Request.Layout.{IsHeader, IsPayload, length-serialize}
use encrypted_backup_client.Crypto.Upload.{chunk_request, upload_request, get_chunk_size}
use encrypted_backup_client.Crypto.Upload.Chunks.{requests}

-- A request whose sizes are those of its bytes, with its place in the sequence.
pub record IsPacket (o : ByteOrder) (file_size total number : ℕ) (r : Request) : Type 0 where
  pub numbered : r.payload.packet_number ≡ number
  pub counted : r.payload.total_packets ≡ total
  pub file_sized : r.payload.file_size ≡ file_size
  pub chunk_sized : r.payload.encrypted_chunk_size ≡ length r.payload.encrypted_chunk_data
  pub payload_sized : length (serialize o r) ≡ 23 + r.header.payload_size

abbrev pub ArePackets : ByteOrder → ℕ → ℕ → ℕ → List Request → Type 0
ArePackets o file_size total number [] = Unit
ArePackets o file_size total number (r ∷ rs) =
    IsPacket o file_size total number r × ArePackets o file_size total (number + 1) rs

module _ (encrypted_file : Text) (c : ℕ) (small : c ≤ 2 ^ 16) (r : Request) (packet : ℕ) where
  abbrev sent : Request
  sent = chunk_request encrypted_file c r packet

  pub sent-IsHeader : IsHeader r.header → IsHeader sent.header
  unfolding chunk_request set_payload_size
  sent-IsHeader h = omega arith

  pub sent-IsPayload : IsPayload r.payload → IsPayload sent.payload
  unfolding chunk_request set_encrypted_chunk_data set_encrypted_chunk_size set_packet_number
  sent-IsPayload p = omega arith

  pub chunk_length :
      length sent.payload.encrypted_chunk_data ≡ min c (length encrypted_file - (packet - 1) * c)
  unfolding chunk_request set_encrypted_chunk_data
  chunk_length = omega (
    arith,
    length-take (min c (length encrypted_file - (packet - 1) * c))
        (drop ((packet - 1) * c) encrypted_file),
    length-drop ((packet - 1) * c) encrypted_file,
  )

  sent-IsPacket :
      (o : ByteOrder) (file_size total : ℕ)
      → IsHeader r.header
      → IsPayload r.payload
      → r.payload.total_packets ≡ total
      → r.payload.file_size ≡ file_size
      → packet < 2 ^ 16
      → IsPacket o file_size total packet sent
  unfolding chunk_request set_payload_size set_encrypted_chunk_data set_encrypted_chunk_size
      set_packet_number
  sent-IsPacket o file_size total h p counted file_sized lt = record {
    numbered = omega arith;
    counted = counted;
    file_sized = file_sized;
    chunk_sized = omega (arith, chunk_length);
    payload_sized =
        omega (arith, chunk_length, length-serialize o sent (sent-IsHeader h) (sent-IsPayload p));
  }

requests-ArePackets :
    (o : ByteOrder) (encrypted_file : Text) (c left packet file_size total : ℕ) (r : Request)
    → c ≤ 2 ^ 16
    → packet + left ≤ 2 ^ 16
    → IsHeader r.header
    → IsPayload r.payload
    → r.payload.total_packets ≡ total
    → r.payload.file_size ≡ file_size
    → ArePackets o file_size total packet (requests encrypted_file c left packet r)
unfolding requests chunk_request set_encrypted_chunk_data set_encrypted_chunk_size set_packet_number
requests-ArePackets o encrypted_file c zero packet file_size total r small few h p counted
      file_sized =
    tt
requests-ArePackets o encrypted_file c (suc left) packet file_size total r small few h p counted
      file_sized =
    (
      sent-IsPacket encrypted_file c small r packet o file_size total h p counted file_sized
          (omega arith),
      requests-ArePackets o encrypted_file c left (packet + 1) file_size total
          (chunk_request encrypted_file c r packet) small (omega arith)
          (sent-IsHeader encrypted_file c small r packet h)
          (sent-IsPayload encrypted_file c small r packet p) counted file_sized,
    )

pub packet_count_bounds :
    (file_size n : ℕ)
    → file_size ≤ 20 * 1024 * 1024
    → n ≤ file_size + 32
    → ((n + get_chunk_size file_size - 1) / get_chunk_size file_size < 2 ^ 16 - 1)
      × (0 < get_chunk_size file_size)
      × (get_chunk_size file_size ≤ 2 ^ 16)
unfolding get_chunk_size
packet_count_bounds file_size n h k = ground arith

-- For a file of at most 20 MiB, encrypted with at most 32 bytes more (the IV and the padding), the
-- packets of the upload are numbered from 1 on, each states the size of the file, the count of the
-- packets and the size of its chunk, and each has as many payload bytes as its header declares: no cast
-- to a field type changes one of these numbers.
pub upload_requests-ArePackets :
    (o : ByteOrder) (encrypted_file file_name user_id : Text) (header : RequestHeader)
    (file_size : ℕ)
    → set_user_id user_id init_header ≡ ok header
    → file_size ≤ max_file_size
    → length encrypted_file ≤ file_size + 32
    → let c = get_chunk_size file_size in
      let total = (length encrypted_file + c - 1) / c in
      ArePackets o file_size total 1
        (requests encrypted_file c total 1 (upload_request header file_name file_size total))
unfolding upload_request init_request set_file_size set_total_packets set_file_name
upload_requests-ArePackets o encrypted_file file_name user_id header file_size set limit padded =
    let c = get_chunk_size file_size in
    let total = (length encrypted_file + c - 1) / c in
    let (few, _, small) = packet_count_bounds file_size (length encrypted_file) limit padded in
    let h = set_user_id-IsHeader user_id init_header header init_header-IsHeader set in
    requests-ArePackets o encrypted_file c total 1 file_size total
      (upload_request header file_name file_size total) small (omega arith)
      (set_request_code-IsHeader RequestCode.create_backup header h (omega arith))
      (sized-IsPayload file_name (file_size % 2 ^ 32) (total % 2 ^ 16) (omega arith) (omega arith))
      (omega arith) (omega arith)
