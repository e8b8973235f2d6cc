-- ===== src/Terminal.antt =====
-- crates/terminal/src: what the terminal keeps of the core's events, and its clock.
pub mod Feed
pub mod Clock
pub mod Tests
