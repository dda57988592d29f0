-- ===== src/Protocol/ResponseCode.antt =====
-- The status codes of include/protocol/protocol_codes.h, namespace protocol::response.
use encrypted_backup_client.Base.{ℕ}

abbrev pub registration_success : ℕ
registration_success = 200

abbrev pub registration_failed : ℕ
registration_failed = 201

abbrev pub username_taken : ℕ
username_taken = 202

abbrev pub re_registration_success : ℕ
re_registration_success = 205

abbrev pub re_registration_failed : ℕ
re_registration_failed = 206

abbrev pub key_send_success : ℕ
key_send_success = 210

abbrev pub upload_received : ℕ
upload_received = 220

abbrev pub upload_rejected_too_large : ℕ
upload_rejected_too_large = 221

abbrev pub ack : ℕ
ack = 230

abbrev pub failed : ℕ
failed = 231
