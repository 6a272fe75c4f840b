-- ===== src/Libafl/Tests.antt =====
-- Runs of the stages of crates/stratamoto-libafl/src/stages.
mod Examples
mod Stability
mod Timeouts
