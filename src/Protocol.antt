-- ===== src/Protocol.antt =====
-- The binary protocol: include/protocol and src/protocol.
pub mod Types
pub mod Sizeof
pub mod RequestCode
pub mod ResponseCode
pub mod Bytes
pub mod Fields
pub mod Request
pub mod Response
pub mod Formatting
