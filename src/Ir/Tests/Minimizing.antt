-- ===== src/Ir/Tests/Minimizing.antt =====
-- The theorems on crates/stratamoto-ir/src/minimizers/nopping.rs at one program.
use stratamoto.Base.{none}
use stratamoto.Ir.Minimizers.Nopping.{NoppingMinimizer, next}
use stratamoto.Ir.Minimizers.Nopping.Candidates.{Given, next-Nops}
use stratamoto.Ir.Tests.Programs.{setup_program}

abbrev nopper : NoppingMinimizer
nopper = record { program = setup_program; candidate = none; next_index = 2 }

next-Nops_example : Given nopper (next nopper)
next-Nops_example = next-Nops nopper
