-- ===== src/Ir.antt =====
-- crates/stratamoto-ir: the typed programs, their builder, compiler, minimizers and mutators.
pub mod Variable
pub mod Operation
pub mod Errors
pub mod Instruction
pub mod Builder
pub mod Spec
pub mod Compiler
pub mod Renumber
pub mod Minimizers
pub mod Generators
pub mod Mutators
pub mod Tests
