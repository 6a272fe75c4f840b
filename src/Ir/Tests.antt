-- ===== src/Ir/Tests.antt =====
-- Programs on which crates/stratamoto-ir is run, and the theorems at them.
pub mod Programs
mod Examples
mod Blocks
mod Minimizing
mod Mutations
