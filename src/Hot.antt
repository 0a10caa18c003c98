-- ===== src/Hot.antt =====
-- The hot-path order book of core/src/hot_book.rs: its level arrays, its order slab, the book.
pub mod Snapshot
pub mod Grid
pub mod Slab
pub mod Book
mod Tests
