-- ===== src/Utils.antt =====
-- The helpers of src/utils.
pub mod Encoding
pub mod Validation
pub mod Logger
pub mod Base64
