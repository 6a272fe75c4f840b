-- ===== src/Harness/Tests.antt =====
-- The theorems on crates/stratamoto and crates/stratamoto-scenarios at concrete inputs.
mod Deployments
mod Examples
