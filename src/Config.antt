-- ===== src/Config.antt =====
-- The configuration of the client: src/config.
pub mod Server
