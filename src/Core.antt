-- ===== src/Core.antt =====
-- Communication and the client's workflow: src/core.
pub mod Communication
pub mod Client
