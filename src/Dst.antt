-- ===== src/Dst.antt =====
-- crates/stratamoto-dst: the deterministic runtime, its files, its clock with the timers, and its network.
pub mod Files
pub mod Time
pub mod Network
mod Tests
