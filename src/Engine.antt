-- ===== src/Engine.antt =====
-- `include/engine` and src/engine: matching, risk checks, sessions and the engine's loop.
pub mod Matching
pub mod Risk
pub mod Session
pub mod Run
pub mod Synthetic
pub mod Network
