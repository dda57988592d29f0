-- ===== src/Protocol/Types.antt =====
-- Field sizes and codes: include/protocol/protocol_types.h and include/protocol/protocol_codes.h.
use encrypted_backup_client.Base.{ℕ, ◌*◌}

abbrev pub unique_id_len : ℕ
unique_id_len = 16

abbrev pub rsa_key_len : ℕ
rsa_key_len = 160

abbrev pub min_username_len : ℕ
min_username_len = 5

abbrev pub username_len : ℕ
username_len = 64

abbrev pub file_name_len : ℕ
file_name_len = 255

abbrev pub max_file_size : ℕ
max_file_size = 20 * 1024 * 1024
