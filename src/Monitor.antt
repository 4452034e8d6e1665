-- ===== src/Monitor.antt =====
-- internal/monitor: the local monitor engine.
pub mod State
pub mod Machine
pub mod Keys
pub mod Registry
pub mod Engine
