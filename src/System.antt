-- ===== src/System.antt =====
-- The state that the client works on, and the code outside the repository that it calls.
pub mod State
pub mod Platform
pub mod World
pub mod Files
pub mod Paths
