-- ===== src/Wire.antt =====
-- The protocol crate, crates/wire/src.
pub mod Channel
pub mod Event
pub mod Command
pub mod Envelope
pub mod Idempotency
pub mod Heartbeat
pub mod Admission
pub mod Tests
pub mod Resume
pub mod Batch
pub mod Frame
pub mod Subscription
pub mod Keystore
pub mod Message
pub mod Session
pub mod Auth
pub mod Audit
pub mod Catalogue
