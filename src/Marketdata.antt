-- ===== src/Marketdata.antt =====
-- crates/marketdata/src: books and candles kept current from the venue's streams.
pub mod Books
pub mod Tests
pub mod Candles
