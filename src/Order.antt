-- ===== src/Order.antt =====
-- `include/order` and src/order: orders, price levels and the order book.
pub mod Record
pub mod Level
pub mod Book
pub mod Listed
pub mod Accounts
pub mod Shape
pub mod Insert
pub mod Invariant
pub mod Delete
pub mod Unlist
pub mod Cancel
pub mod Add
pub mod Modify
