-- ===== src/Harness/Scenario.antt =====
-- crates/stratamoto-scenarios and crates/stratamoto/src/scenario.rs: a scenario's test cases, their
-- verdict, and the exit code of a scenario's program. The decoding of a program's bytes is a
-- library's, and the start of a deployment is outside the harness, so that both are parameters.
-- The log, the context that is dumped and the texts of errors are left out: an error of an input is
-- its reason.
pub mod Verdicts
use stratamoto.Base.{
  ℕ, Bool, true, false, List, Option, none, some, ltb, if◌then◌else◌, ◌⊎◌, inl, inr, Result, ok,
  err, panic, ◌>>=◌,
}
use stratamoto.Ir.Instruction.{Program}
use stratamoto.Ir.Builder.{is_statically_valid}
use stratamoto.Ir.Spec.{CompiledProgram, CompilerError, Wire}
use stratamoto.Ir.Compiler.{compile}
use stratamoto.Harness.Environment.{Deployment}
use stratamoto.Harness.Runner.{Execution, new_execution, Ran, NotEnded, run}
use stratamoto.Harness.Oracle.{
  Violation, OracleResult, pass, fail, evaluate_integrity, evaluate_conformance, evaluate_crash,
}

pub data OracleName : Type 0 where
  harness_integrity_oracle setup_connection_oracle crash_oracle : OracleName

pub data ScenarioResult : Type 0 where
  passed skip : ScenarioResult
  found : OracleName → Violation → ScenarioResult
  infrastructure : OracleName → Violation → ScenarioResult

pub record TestCase : Type 0 where
  pub program : CompiledProgram

pub record Run : Type 0 where
  pub execution : Execution
  pub result : ScenarioResult

pub data InputError : Type 0 where
  not_decoded not_statically_valid : InputError
  not_compiled : CompilerError → InputError

unfoldable pub map_err : {E F A : Type 0} → (E → F) → Result E A → Result F A
map_err f (ok a) = ok a
map_err f (err e) = err (f e)
map_err f panic = panic

unfoldable pub from_valid : Wire → Option Bool → Program → Result InputError TestCase
unfolding map_err
from_valid w none program = panic
from_valid w (some false) program = err not_statically_valid
from_valid w (some true) program =
    map_err not_compiled (compile w program) >>= λ q. ok (record { program = q })

-- `TestCase::from_program`
unfoldable pub from_program : Wire → Program → Result InputError TestCase
unfolding from_valid
from_program w program = from_valid w (is_statically_valid program) program

-- `TestCase::decode`, of the library's decoding of programs
unfoldable pub decode : Wire → (List ℕ → Option Program) → List ℕ → Result InputError TestCase
unfolding from_program
decode w from_bytes bytes = elim (from_bytes bytes) [
  | none ↦ err not_decoded
  | some program ↦ from_program w program
]

-- the oracles after the first that passes
unfoldable pub then_judge :
    OracleResult → (Violation → ScenarioResult) → ScenarioResult → ScenarioResult
then_judge pass failed later = later
then_judge (fail v) failed later = failed v

module _ {E L : Type 0} (D : Deployment E L) where
  -- The deployment is asked in the environment after the run.
  unfoldable pub evaluate : CompiledProgram → Execution → E → ScenarioResult
  unfolding then_judge
  evaluate program execution e =
      then_judge (evaluate_integrity program execution) (infrastructure harness_integrity_oracle) (
        then_judge (evaluate_conformance D program execution) (found setup_connection_oracle)
          (then_judge (evaluate_crash D e) (found crash_oracle) passed))

  -- `PoolSetupConnectionScenario::execute`, and the environment after it
  unfoldable pub execute : (E → ℕ) → TestCase → E → Ran (Run × E)
  unfolding evaluate
  execute budget testcase e =
      if ltb D.num_roles testcase.program.context.num_roles
      then ok (record { execution = new_execution; result = skip }, e)
      else run D budget testcase.program e >>= λ out.
          ok (record { execution = out.0; result = evaluate testcase.program out.0 out.1 }, out.1)

  -- `PoolSetupConnectionScenario::run` in an environment
  unfoldable pub run_scenario : (E → ℕ) → E → Unit {0} → TestCase → Ran ScenarioResult
  unfolding execute
  run_scenario budget e _ testcase = execute budget testcase e >>= λ out. ok out.0.result

pub data Report : Type 0 where
  -- the runner's `fail` after "INFRASTRUCTURE: " and after "FAIL: ", its `skip`, and no call of it
  infrastructure_report fail_report skip_report no_report : Report

-- the exit code of a verdict, and what the runner is told
unfoldable pub conclude : ScenarioResult → ℕ × Report
conclude passed = (0, no_report)
conclude skip = (0, skip_report)
conclude (found name v) = (1, fail_report)
conclude (infrastructure name v) = (2, infrastructure_report)

-- `main` of `stratamoto_main`, from the start of the scenario and the runner's bytes
unfoldable pub main :
    {S I X Y : Type 0}
    → Result X S
    → (List ℕ → Result Y I)
    → List ℕ
    → (S → I → Ran ScenarioResult)
    → Ran (ℕ × Report)
unfolding conclude
main (err _) decoded bytes run_scenario = ok (2, infrastructure_report)
main panic decoded bytes run_scenario = panic
main (ok scenario) decoded bytes run_scenario = elim (decoded bytes) [
  | err _ ↦ ok (0, skip_report)
  | panic ↦ panic
  | ok testcase ↦ run_scenario scenario testcase >>= λ result. ok (conclude result)
]
