-- ===== src/Exchange.antt =====
-- crates/exchange/src: the connector contract.
pub mod Caps
pub mod Error
pub mod Limits
pub mod Tests
