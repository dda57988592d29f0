-- ===== src/Registration.antt =====
-- Registration and re-registration: src/registration.
pub mod Credentials
pub mod KeyExchange
pub mod Flow
pub mod Identity
