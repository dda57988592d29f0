-- ===== src/Protocol/RequestCode.antt =====
-- The operation codes of include/protocol/protocol_codes.h, namespace protocol::request.
use encrypted_backup_client.Base.{ℕ}

abbrev pub registration : ℕ
registration = 100

abbrev pub public_key_send : ℕ
public_key_send = 101

abbrev pub re_registration : ℕ
re_registration = 102

abbrev pub create_backup : ℕ
create_backup = 103

abbrev pub crc_success : ℕ
crc_success = 120

abbrev pub crc_error : ℕ
crc_error = 121

abbrev pub crc_failure : ℕ
crc_failure = 122

abbrev pub disconnect : ℕ
disconnect = 130
