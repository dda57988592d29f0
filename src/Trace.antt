-- ===== src/Trace.antt =====
-- What the whole client does to the world, step by step: every operation of src/ runs through the
-- steps of Trace.Steps.
pub mod Steps
pub mod Session
pub mod Rules
pub mod Talks
pub mod Ends
pub mod Results
pub mod Credentials
pub mod Requests
pub mod Communication
pub mod Exchange
pub mod Registration
pub mod Selection
pub mod Upload
pub mod Backup
pub mod Client
pub mod Files
pub mod Wire
pub mod Exit
pub mod Cleanup
