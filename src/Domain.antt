-- ===== src/Domain.antt =====
-- The venue-agnostic types of crates/domain/src: identity, time, order status and the order book.
pub mod Decimals
pub mod Ids
pub mod Time
pub mod Order
pub mod Book
pub mod Tests
pub mod Registry
pub mod Account
pub mod Instrument
pub mod Event
pub mod Names
