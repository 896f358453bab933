-- ===== src/Metrics.antt =====
-- Measuring.
pub mod Latency
pub mod Http
