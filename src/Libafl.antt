-- ===== src/Libafl.antt =====
-- crates/stratamoto-libafl: the stages of the fuzzer that keep a state of their own.
pub mod MinimizerStage
pub mod StabilityCheck
pub mod VerifyTimeouts
mod Tests
