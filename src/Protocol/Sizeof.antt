-- ===== src/Protocol/Sizeof.antt =====
-- `sizeof` of the field types of include/protocol/protocol_types.h.
use encrypted_backup_client.Base.{ℕ}

abbrev pub version : ℕ
version = 1

abbrev pub code : ℕ
code = 2

abbrev pub payload_size : ℕ
payload_size = 4

abbrev pub enc_chunk_size : ℕ
enc_chunk_size = 4

abbrev pub file_size : ℕ
file_size = 4

abbrev pub packet_num : ℕ
packet_num = 2

abbrev pub total_packets : ℕ
total_packets = 2

abbrev pub checksum : ℕ
checksum = 4
