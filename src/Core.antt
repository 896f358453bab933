-- ===== src/Core.antt =====
-- `include/core`: strong types, the object pool, the ring buffer, and durations.
pub mod Types
pub mod Pool
pub mod Ring
pub mod Spsc
