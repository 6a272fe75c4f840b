-- ===== src/Harness/Oracle.antt =====
-- crates/stratamoto/src/oracle.rs: the oracles. A text that an oracle gives for a failure is the
-- `Violation` that it is about, and the texts' formatting is left out.
pub mod Allowed
pub mod Conforms
pub mod Integrity
pub mod Blames
use stratamoto.Base.{
  ℕ, suc, ◌/◌, ◌%◌, Bool, true, false, not, ◌&&◌, List, [], ◌∷◌, length, leb, ◌==◌, if◌then◌else◌,
  Option, none, some, map_get, get_elem?, Result, ok, err, panic, ◌>>=◌,
}
use stratamoto.Ir.Variable.{Protocol, mining}
use stratamoto.Ir.Spec.{Action, await_setup_response, CompiledProgram, SetupConnectionSpec}
use stratamoto.Harness.Environment.{
  RoleProtocol, mining_protocol, job_declaration_protocol, template_distribution_protocol,
  protocol_of, RoleConfig, Deployment,
}
use stratamoto.Harness.Runner.{
  SetupResponse, success, error, unexpected_frame, silence, Response, no_response, setup, probed,
  ActionOutcome, completed, timed_out, transport_closed, transport_error, skipped, harness_error,
  Failure, Execution, is_total,
}

-- why an execution fails
pub data Violation : Type 0 where
  -- `check`
  no_answer : Violation
  closed_connection : Violation
  transport_failed : Failure → Violation
  wrong_kind : Response → Violation
  answered_with : ℕ → Violation
  version_not_proposed : ℕ → Violation
  fixed_version : Violation
  wrong_protocol : Protocol → RoleProtocol → Violation
  version_not_supported : ℕ → Violation
  -- `HarnessIntegrityOracle`
  outcomes_missing : ℕ → ℕ → Violation
  -- the action, its instruction, and the harness's text
  not_carried_out : ℕ → Option ℕ → List ℕ → Violation
  -- `SetupConnectionOracle`
  without_outcome : ℕ → Option ℕ → Violation
  without_spec : ℕ → Violation
  -- the session and the role
  unknown_role : ℕ → ℕ → Violation
  -- the role, its answer and the setup
  misanswered : ℕ → ActionOutcome → SetupConnectionSpec → Violation → Violation
  -- `CrashOracle`
  stopped_serving : Violation

pub data OracleResult : Type 0 where
  pass : OracleResult
  fail : Violation → OracleResult

-- `MINING_REQUIRES_VERSION_ROLLING` and `MINING_SUCCESS_REQUIRES_FIXED_VERSION`
abbrev pub requires_version_rolling : ℕ → Bool
requires_version_rolling flags = not (flags / 4 % 2 == 0)

abbrev pub requires_fixed_version : ℕ → Bool
requires_fixed_version flags = not (flags % 2 == 0)

unfoldable pub is_mining : Protocol → Bool
is_mining mining = true
is_mining _ = false

unfoldable pub role_protocol_eq : RoleProtocol → RoleProtocol → Bool
role_protocol_eq mining_protocol mining_protocol = true
role_protocol_eq job_declaration_protocol job_declaration_protocol = true
role_protocol_eq template_distribution_protocol template_distribution_protocol = true
role_protocol_eq _ _ = false

-- `(low..=high).contains(&version)`
unfoldable pub in_range : ℕ → ℕ → ℕ → Bool
in_range low high version = leb low version && leb version high

-- a guard that fails with a violation
abbrev pub fail_if : Bool → Violation → Result Violation (Unit {0})
fail_if true v = err v
fail_if false v = ok tt

-- `check` of a version and flags that the server accepts
unfoldable pub check_success :
    RoleConfig → SetupConnectionSpec → ℕ → ℕ → Result Violation (Unit {0})
unfolding in_range is_mining role_protocol_eq
check_success config spec used_version flags = do
  _ ←
      fail_if (not (in_range spec.min_version spec.max_version used_version))
        (version_not_proposed used_version)
  _ ←
      fail_if
        (is_mining spec.protocol
          && (requires_fixed_version flags && requires_version_rolling spec.flags))
        fixed_version
  _ ←
      fail_if (not (role_protocol_eq (protocol_of spec.protocol) config.protocol))
        (wrong_protocol spec.protocol config.protocol)
  fail_if (not (in_range config.min_version config.max_version used_version))
      (version_not_supported used_version)

unfoldable pub check_response :
    RoleConfig → SetupConnectionSpec → SetupResponse → Result Violation (Unit {0})
check_response config spec silence = err no_answer
check_response config spec (unexpected_frame t) = err (answered_with t)
check_response config spec (error _ _) = ok tt
check_response config spec (success used_version flags) =
    check_success config spec used_version flags

-- `check` where an answer is owed
unfoldable pub check_owed :
    RoleConfig → SetupConnectionSpec → ActionOutcome → Result Violation (Unit {0})
check_owed config spec (completed (setup response)) = check_response config spec response
check_owed config spec timed_out = err no_answer
check_owed config spec transport_closed = err closed_connection
check_owed config spec (transport_error e) = err (transport_failed e)
check_owed config spec (skipped _) = ok tt
check_owed config spec (harness_error _) = ok tt
check_owed config spec (completed other) = err (wrong_kind other)

unfoldable pub check :
    RoleConfig → SetupConnectionSpec → Bool → ActionOutcome → Result Violation (Unit {0})
unfolding check_owed
check config spec owed outcome = if not owed then ok tt else check_owed config spec outcome

-- `!contains_key(..)`, of what a map has for a key
unfoldable pub is_absent : {V : Type 0} → Option V → Bool
is_absent none = true
is_absent (some _) = false

-- `describe`, without its text
unfoldable pub describe : CompiledProgram → ℕ → Option ℕ
describe program action = get_elem? program.metadata.action_instructions action

-- the loop of `HarnessIntegrityOracle` from the outcome at `id`
unfoldable pub integrity_from : CompiledProgram → ℕ → List ActionOutcome → OracleResult
integrity_from program id [] = pass
integrity_from program id (harness_error e ∷ outcomes) =
    fail (not_carried_out id (describe program id) e)
integrity_from program id (_ ∷ outcomes) = integrity_from program (suc id) outcomes

-- `HarnessIntegrityOracle::evaluate`
unfoldable pub evaluate_integrity : CompiledProgram → Execution → OracleResult
unfolding integrity_from
evaluate_integrity program execution =
    if not (is_total program execution)
    then fail (outcomes_missing (length program.actions) (length execution.outcomes))
    else integrity_from program 0 execution.outcomes

module _ {E L : Type 0} (D : Deployment E L) (program : CompiledProgram)
    (execution : Execution) where
  -- whether an answer is owed to the setup of an await action
  unfoldable pub is_owed : ℕ → Bool → Bool
  is_owed id first = first && is_absent (map_get id program.metadata.violations)

  -- the answer of a role
  unfoldable pub judge_answer :
      RoleConfig → ℕ → SetupConnectionSpec → Bool → ActionOutcome → Option Violation
  judge_answer config role spec owed outcome = elim (check config spec owed outcome) [
    | ok _ ↦ none
    | err violation ↦ some (misanswered role outcome spec violation)
    | panic ↦ none
  ]

  -- The turn of the loop for an await action: `none` is that the loop goes on.
  unfoldable pub judge_await : ℕ → ℕ → ℕ → Bool → Option Violation
  unfolding judge_answer is_owed
  judge_await id connection session first = elim (get_elem? execution.outcomes id) [
    | none ↦ some (without_outcome id (describe program id))
    | some outcome ↦ elim (map_get session program.metadata.session_setups) [
      | none ↦ some (without_spec session)
      | some spec ↦ elim (map_get connection execution.connection_roles) [
        | none ↦ none
        | some role ↦ elim (D.role_config role) [
          | none ↦ some (unknown_role session role)
          | some config ↦ judge_answer config role spec (is_owed id first) outcome
        ]
      ]
    ]
  ]

  unfoldable pub judge_action : ℕ → Action → Option Violation
  unfolding judge_await
  judge_action id (await_setup_response connection session _ first) =
      judge_await id connection session first
  judge_action id _ = none

  -- the loop of `SetupConnectionOracle` from the action at `id`
  unfoldable pub conformance_from : ℕ → List Action → OracleResult
  unfolding judge_action
  conformance_from id [] = pass
  conformance_from id (action ∷ actions) = elim (judge_action id action) [
    | some violation ↦ fail violation
    | none ↦ conformance_from (suc id) actions
  ]

  -- `SetupConnectionOracle::evaluate`
  unfoldable pub evaluate_conformance : OracleResult
  unfolding conformance_from
  evaluate_conformance = conformance_from 0 program.actions

-- `CrashOracle::evaluate`
unfoldable pub evaluate_crash : {E L : Type 0} → Deployment E L → E → OracleResult
evaluate_crash D e = if D.is_alive e then pass else fail stopped_serving
