-- ===== src/Libafl/Tests/Examples.antt =====
-- The theorems on the minimizing stage of crates/stratamoto-libafl/src/stages/mod.rs at one entry.
use stratamoto.Base.{◌≡◌, refl, true, false, some, none, arith}
use stratamoto.Ir.Instruction.{Program}
use stratamoto.Ir.Tests.Programs.{setup_program, setup_program_valid, runs}
use stratamoto.Ir.Builder.{is_statically_valid}
use stratamoto.Ir.Minimizers.{yielded, mark, try_without}
use stratamoto.Ir.Operation.{
  num_outputs, num_inner_outputs, get_output_variables, get_inner_output_variables,
}
use stratamoto.Ir.Renumber.{
  dropped, count_outputs, mapped, kept_after, build_mapping, renumber_inputs, renumber, keep_rest,
  without,
}
use stratamoto.Ir.Minimizers.Cutting.{CuttingMinimizer, cutting, cut, next_within, next}
use stratamoto.Ir.Minimizers.Cutting.Candidates.{Given, without_last}
use stratamoto.Ir.Minimizers.Cutting.Laws.{CanCut, cutting_laws, next-Given}
use stratamoto.Libafl.MinimizerStage.{StageState, reduce, perform, performed, stage_out_of_fuel}
use stratamoto.Libafl.MinimizerStage.Ends.{Ends, reduce-Ends, perform-over_limit}
use stratamoto.Libafl.MinimizerStage.Cutting.{reduce-failing_execution}

abbrev cutter : CuttingMinimizer
cutter = record { program = setup_program; candidate = none; length = 3 }

cutter-CanCut : CanCut cutter
cutter-CanCut = record { valid = setup_program_valid; fits = omega arith }

abbrev entry : StageState
entry = record { consecutive_failures = 0; current_ir = setup_program; success = false }

next-Given_example : Given cutter (next cutter)
next-Given_example = next-Given cutter cutter-CanCut

reduce-Ends_example :
    Ends cutting 200 (λ _. some true) (reduce cutting 200 (λ _. some true) 16 cutter entry) entry
unfolding cutting_laws
reduce-Ends_example =
    reduce-Ends cutting 200 (λ _. some true) cutting_laws (λ p e. cc) 16 cutter entry cutter-CanCut
      (omega arith) setup_program_valid

perform-over_limit_example :
    perform cutting 200 (λ _. some true) 1 201 setup_program
    ≡ performed (record { consecutive_failures = 201; current_ir = setup_program; success = false })
perform-over_limit_example =
    perform-over_limit cutting 200 (λ _. some true) cutting_laws 0 201 setup_program
      setup_program_valid (omega arith)

abbrev shorter : Program
shorter = without_last 3 setup_program

next_cutter : next cutter ≡ yielded shorter (record cutter { candidate = some shorter })
unfolding runs is_statically_valid next next_within cut try_without mark without keep_rest renumber
    renumber_inputs build_mapping mapped kept_after dropped count_outputs num_outputs
    num_inner_outputs get_output_variables get_inner_output_variables
next_cutter = refl

reduce-failing_execution_example :
    reduce cutting 200 (λ _. none) 100 cutter entry ≡ stage_out_of_fuel
reduce-failing_execution_example =
    reduce-failing_execution 200 (λ _. none) cutter (record cutter { candidate = some shorter })
      shorter entry cutter-CanCut next_cutter refl (omega arith) 100
