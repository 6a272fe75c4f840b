-- ===== src/Ir/Tests/Blocks.antt =====
-- The theorem on crates/stratamoto-ir/src/minimizers/block.rs at one program.
use stratamoto.Base.{none}
use stratamoto.Ir.Minimizers.Block.{BlockMinimizer, next}
use stratamoto.Ir.Minimizers.Block.Candidates.{Given, next-Drops}
use stratamoto.Ir.Tests.Programs.{setup_program}

abbrev blocker : BlockMinimizer
blocker = record { program = setup_program; candidate = none; next_index = 0 }

next-Drops_example : Given blocker (next blocker)
next-Drops_example = next-Drops blocker
