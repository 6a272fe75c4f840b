-- ===== src/Harness/Tests/Examples.antt =====
-- The theorems on crates/stratamoto and crates/stratamoto-scenarios at a deployment of one pool.
use stratamoto.Base.{ℕ, ◌≡◌, ◌↔◌, ◌⊎◌, true, List, [], ◌∷◌, ◌++◌, some, ok, Returns, arith}
use stratamoto.Ir.Spec.{default_setup}
use stratamoto.Ir.Compiler.Jumps.Compiled.{AllClosed, compile-Closed}
use stratamoto.Ir.Tests.Programs.{setup_program, setup_program_valid, plain_wire, plain_wire_laws}
use stratamoto.Harness.Errors.{Error}
use stratamoto.Harness.Frames.{assemble}
use stratamoto.Harness.Frames.Layout.{read_frame, read_frame-assemble}
use stratamoto.Harness.Events.{ConnectionState, pending, dispatch}
use stratamoto.Harness.Events.States.{Received, dispatch-SetupStep}
use stratamoto.Harness.Environment.{mining_protocol, new_role_config}
use stratamoto.Harness.Runner.{Execution, new_execution, completed, setup, success, run}
use stratamoto.Harness.Runner.Fits.{AllFit}
use stratamoto.Harness.Oracle.{check}
use stratamoto.Harness.Oracle.Allowed.{Allowed, check-Allowed}
use stratamoto.Harness.Oracle.Conforms.{Conforms}
use stratamoto.Harness.Oracle.Integrity.{Integral}
use stratamoto.Harness.Scenario.{
  passed, evaluate, execute, run_scenario, decode, main, Report, fail_report,
}
use stratamoto.Harness.Scenario.Verdicts.{
  Judged, evaluate-passed, run-Done, execute-Judged, main-exit_code,
}
use stratamoto.Harness.Tests.Deployments.{
  Frames, one_pool, one_pool_laws, setup_answer, frame_budget, frame_budget_enough, setup_compiled,
  setup_made,
}

compile-Closed_example : AllClosed setup_compiled.0.actions
compile-Closed_example =
    compile-Closed plain_wire setup_program setup_compiled.0 plain_wire_laws setup_program_valid
      setup_compiled.1

read_frame-assemble_example :
    (bytes : List ℕ) × (assemble 0 0x1a true (7 ∷ 8 ∷ 9 ∷ []) ≡ ok bytes)
    × (read_frame bytes
        ≡ some (
          record {
            ext_type_without_channel_msg = 0;
            channel_msg = true;
            msg_type = 0x1a;
            payload_length = 3;
          },
          7 ∷ 8 ∷ 9 ∷ [],
        ))
read_frame-assemble_example = read_frame-assemble 0 0x1a true (7 ∷ 8 ∷ 9 ∷ []) (omega arith)

abbrev asked_connection : ConnectionState
asked_connection = record { setup = pending; events = []; header_issues = [] }

dispatch-SetupStep_example :
    Received setup_answer asked_connection
      (dispatch setup_answer asked_connection).0
      (dispatch setup_answer asked_connection).1
      ([] ++ (dispatch setup_answer asked_connection).1 ∷ [])
dispatch-SetupStep_example = dispatch-SetupStep setup_answer asked_connection

check-Allowed_example :
    (check (new_role_config mining_protocol) default_setup true (completed (setup (success 2 0)))
      ≡ ok tt)
    ↔ (true ≡ true
        → Allowed (new_role_config mining_protocol) default_setup (completed (setup (success 2 0))))
check-Allowed_example =
    check-Allowed (new_role_config mining_protocol) default_setup true
      (completed (setup (success 2 0)))

evaluate-passed_example : (evaluate one_pool setup_compiled.0 new_execution [] ≡ passed) ↔ (
    Integral setup_compiled.0 new_execution
    × (Conforms one_pool setup_compiled.0 new_execution × (true ≡ true)))
evaluate-passed_example = evaluate-passed one_pool setup_compiled.0 new_execution []

run-Done_example :
    Returns
      (λ (out : Execution × Frames).
        Integral setup_compiled.0 out.0 × AllFit setup_compiled.0.actions out.0.outcomes)
      (run one_pool frame_budget setup_compiled.0 (setup_answer ∷ []))
run-Done_example =
    run-Done one_pool one_pool_laws frame_budget frame_budget_enough setup_compiled.0
      (setup_answer ∷ []) compile-Closed_example

execute-Judged_example :
    Returns
      (Judged one_pool setup_made.0)
      (execute one_pool frame_budget setup_made.0 (setup_answer ∷ []))
execute-Judged_example =
    execute-Judged one_pool one_pool_laws frame_budget frame_budget_enough plain_wire setup_program
      setup_made.0 (setup_answer ∷ []) plain_wire_laws setup_made.1

setup_decoded : decode plain_wire (λ _. some setup_program) [] ≡ ok setup_made.0
unfolding decode
setup_decoded = setup_made.1

main-exit_code_example :
    Returns
      (λ (out : ℕ × Report). (out.0 ≡ 0) ⊎ (out ≡ (1, fail_report)))
      (main {X = Error}
        (ok tt)
        (decode plain_wire (λ _. some setup_program))
        []
        (run_scenario one_pool frame_budget (setup_answer ∷ [])))
main-exit_code_example =
    main-exit_code one_pool one_pool_laws frame_budget frame_budget_enough plain_wire
      (λ _. some setup_program) [] setup_made.0 (setup_answer ∷ []) plain_wire_laws setup_decoded
