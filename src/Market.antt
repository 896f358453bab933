-- ===== src/Market.antt =====
-- Market data.
pub mod Feed
