-- ===== src/Ir/Instruction.antt =====
-- crates/stratamoto-ir/src/instruction.rs and the data of crates/stratamoto-ir/src/lib.rs:
-- instructions, the scopes they open, and programs.
use stratamoto.Base.{ℕ, Bool, ◌&&◌, not, Option, none, some, List, []}
use stratamoto.Ir.Operation.{
  Operation, nop, begin_build_setup_connection, begin_on_setup_success, is_block_begin,
  is_block_end, num_outputs, num_inner_outputs,
}

pub record Instruction : Type 0 where
  pub inputs : List ℕ
  pub operation : Operation

pub data InstructionContext : Type 0 where
  global build_setup_connection on_setup_success : InstructionContext

unfoldable pub is_noppable : Instruction → Bool
unfolding is_block_begin is_block_end
is_noppable i = not (is_block_begin i.operation) && not (is_block_end i.operation)

-- `Instruction::nop`
unfoldable pub to_nop : Instruction → Instruction
unfolding num_outputs num_inner_outputs
to_nop i = record {
  inputs = [];
  operation = nop (num_outputs i.operation) (num_inner_outputs i.operation);
}

unfoldable pub entered_context : Operation → Option InstructionContext
entered_context begin_build_setup_connection = some build_setup_connection
entered_context (begin_on_setup_success _) = some on_setup_success
entered_context _ = none

-- `Instruction::entered_context_after_execution`
unfoldable pub entered_context_after_execution : Instruction → Option InstructionContext
unfolding entered_context
entered_context_after_execution i = entered_context i.operation

pub record ProgramContext : Type 0 where
  pub num_roles : ℕ
  pub num_connections : ℕ
  pub seed : ℕ

pub record Program : Type 0 where
  pub context : ProgramContext
  pub instructions : List Instruction
