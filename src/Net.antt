-- ===== src/Net.antt =====
-- The wire format.
pub mod Wire
pub mod Codec
pub mod Socket
