-- ===== src/Crypto.antt =====
-- Cryptography and the backup of files: src/crypto.
pub mod Buffer
pub mod Aes
pub mod Rsa
pub mod Upload
pub mod Backup
