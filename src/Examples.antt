-- ===== src/Examples.antt =====
-- The theorems on concrete pools, rings, levels, books and orders.
mod Core
mod Order
mod Risk
mod Wire
mod Matching
mod Full
mod Journal
mod Run
mod Network
mod Outside
