-- ===== src/Harness.antt =====
-- crates/stratamoto and crates/stratamoto-scenarios: frames, connection states, the runner of
-- compiled programs, the oracles and the scenario.
pub mod Errors
pub mod Frames
pub mod Events
pub mod Environment
pub mod Runner
pub mod Oracle
pub mod Scenario
mod Tests
