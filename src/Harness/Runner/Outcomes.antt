-- ===== src/Harness/Runner/Outcomes.antt =====
-- The outcomes of crates/stratamoto/src/runner.rs, and what an execution records of a run.
use stratamoto.Base.{
  ℕ, Bool, true, false, ◌&&◌, ◌||◌, List, [], ◌∷◌, length, leb, ltb, ◌==◌, if◌then◌else◌,
}
use stratamoto.Ir.Variable.{Protocol}
use stratamoto.Ir.Spec.{CompiledProgram}
use stratamoto.Harness.Errors.{Error, io, timeout, IoErrorKind, other_kind}
use stratamoto.Harness.Events.{
  ConnectionState, SetupState, unsent, pending, established, rejected, unexpected,
}

pub data SetupResponse : Type 0 where
  success : ℕ → ℕ → SetupResponse
  error : ℕ → List ℕ → SetupResponse
  unexpected_frame : ℕ → SetupResponse
  silence : SetupResponse

pub record Session : Type 0 where
  pub connection : ℕ
  pub protocol : Protocol
  pub first_on_connection : Bool
  pub response : SetupResponse

pub data Prerequisite : Type 0 where
  connection_open setup_done : ℕ → Prerequisite

pub data Response : Type 0 where
  no_response : Response
  setup : SetupResponse → Response
  probed : List (ℕ × ℕ) → Response

-- what the text of a transport error says
pub data Failure : Type 0 where
  of_error : Error → Failure
  -- the connection and the role
  not_opened : ℕ → ℕ → Failure

pub data ActionOutcome : Type 0 where
  completed : Response → ActionOutcome
  timed_out transport_closed : ActionOutcome
  transport_error : Failure → ActionOutcome
  skipped : Prerequisite → ActionOutcome
  harness_error : List ℕ → ActionOutcome

pub record Execution : Type 0 where
  pub outcomes : List ActionOutcome
  pub sessions : List (ℕ × Session)
  pub connection_roles : List (ℕ × ℕ)
  pub unsolicited : List (ℕ × ℕ)
  pub connections : List (ℕ × ConnectionState)

-- `Execution::default`
abbrev pub new_execution : Execution
new_execution = record {
  outcomes = [];
  sessions = [];
  connection_roles = [];
  unsolicited = [];
  connections = [];
}

unfoldable pub is_total : CompiledProgram → Execution → Bool
is_total p x = length x.outcomes == length p.actions

abbrev pub response_timeout : ℕ
response_timeout = 10000

abbrev pub unowed_response_wait : ℕ
unowed_response_wait = 100

unfoldable pub closes : IoErrorKind → Bool
closes (other_kind _) = false
closes _ = true

unfoldable pub transport_failure : Error → ActionOutcome
unfolding closes
transport_failure timeout = timed_out
transport_failure (io kind) =
    if closes kind then transport_closed else transport_error (of_error (io kind))
transport_failure e = transport_error (of_error e)

unfoldable pub is_pending : SetupState → Bool
is_pending pending = true
is_pending _ = false

unfoldable pub is_success : SetupResponse → Bool
is_success (success _ _) = true
is_success _ = false

unfoldable pub response_of : SetupState → SetupResponse
response_of (established version flags) = success version flags
response_of (rejected flags code) = error flags code
response_of (unexpected t) = unexpected_frame t
response_of unsent = silence
response_of pending = silence

-- the order of `sort_unstable` on pairs
unfoldable pub pair_le : ℕ × ℕ → ℕ × ℕ → Bool
pair_le (a, b) (c, d) = ltb a c || (a == c && leb b d)

unfoldable pub insert_sorted : ℕ × ℕ → List (ℕ × ℕ) → List (ℕ × ℕ)
insert_sorted x [] = x ∷ []
insert_sorted x (y ∷ ys) = if pair_le x y then x ∷ (y ∷ ys) else y ∷ insert_sorted x ys

unfoldable pub sort : List (ℕ × ℕ) → List (ℕ × ℕ)
sort [] = []
sort (x ∷ xs) = insert_sorted x (sort xs)
