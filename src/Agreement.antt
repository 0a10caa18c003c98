-- ===== src/Agreement.antt =====
-- The hot book (core/src/hot_book.rs) against the reference book (core/src/orderbook.rs).
pub mod Relation
pub mod Steps
pub mod Room
pub mod Theorem
pub mod L2
pub mod Feed
mod Tests
