-- ===== src/Book.antt =====
-- include/OrderBook.hpp and src/OrderBook.cpp: the limit order book. `Types` has its state, `Pool`
-- the allocator, `Index` the hash map from order ids, `Levels` the intrusive lists of the price
-- levels, `Ops` the public operations; the other modules prove what they do.
pub mod Types
pub mod Pool
pub mod Index
pub mod Levels
pub mod Ops
pub mod Chain
pub mod Splice
pub mod Lookup
pub mod Indexed
pub mod Store
pub mod Links
pub mod Enqueue
pub mod Dequeue
pub mod Stored
pub mod Whole
pub mod Members
pub mod Add
pub mod Cancel
pub mod Resize
pub mod Quantity
pub mod Modify
pub mod Start
pub mod Answers
pub mod Total
mod Tests
