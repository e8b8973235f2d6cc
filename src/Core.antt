-- ===== src/Core.antt =====
-- crates/core/src: the read-model, and the loop that serves one terminal.
pub mod Config
pub mod State
pub mod Server
