-- ===== src/Binance.antt =====
-- crates/binance/src: the connector of one venue.
pub mod Wire
pub mod Streams
pub mod Rest
pub mod Connector
pub mod Tests
