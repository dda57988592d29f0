-- ===== src/Ui.antt =====
-- Console prompts and output: src/ui and include/ui.
pub mod Selection
pub mod Color
pub mod Console
