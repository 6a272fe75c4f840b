-- ===== src/Harness/Runner/Fits.antt =====
-- Which outcomes an action of crates/stratamoto/src/runner.rs may have.
use stratamoto.Base.{ℕ, ◌≡◌, ◌≢◌, Bool, List, get_elem?, some}
use stratamoto.Ir.Variable.{Protocol}
use stratamoto.Ir.Spec.{Action, send, await_setup_response}
use stratamoto.Harness.Errors.{
  Error, io, framing, timeout, unexpected_eof, connection_reset, connection_aborted, broken_pipe,
  not_connected, other_kind,
}
use stratamoto.Harness.Runner.{
  SetupResponse, silence, setup, probed, no_response, connection_open, setup_done, ActionOutcome,
  completed, timed_out, transport_closed, transport_error, skipped, transport_failure, closes,
}

-- The actions that await nothing.
abbrev pub AwaitsNothing : Action → Type 0
AwaitsNothing (await_setup_response _ _ _ _) = ⊥
AwaitsNothing Action.probe = ⊥
AwaitsNothing _ = Unit

-- The actions on a connection, and their connection.
abbrev pub On : ℕ → Action → Type 0
On c (send c' _ _ _ _) = c ≡ c'
On c (await_setup_response c' _ _ _) = c ≡ c'
On c _ = ⊥

abbrev pub MayFail : Action → Type 0
MayFail (Action.connect _ _) = Unit
MayFail (send _ _ _ _ _) = Unit
MayFail (await_setup_response _ _ _ _) = Unit
MayFail _ = ⊥

abbrev pub IsFailure : ActionOutcome → Type 0
IsFailure timed_out = Unit
IsFailure transport_closed = Unit
IsFailure (transport_error _) = Unit
IsFailure _ = ⊥

-- An outcome that an action may have: a setup that completed has an answer, which is not silence.
-- A failure of the harness is none of them.
pub data Fits (a : Action) : ActionOutcome → Type 0 where
  in_skipped_block : (session : ℕ) → Fits a (skipped (setup_done session))
  without_connection : (c : ℕ) → On c a → Fits a (skipped (connection_open c))
  without_answer : AwaitsNothing a → Fits a (completed no_response)
  answered :
      (c session : ℕ) (p : Protocol) (first : Bool) (response : SetupResponse)
      → a ≡ await_setup_response c session p first
      → response ≢ silence
      → Fits a (completed (setup response))
  collected : (found : List (ℕ × ℕ)) → a ≡ Action.probe → Fits a (completed (probed found))
  failed : (o : ActionOutcome) → MayFail a → IsFailure o → Fits a o

-- Each outcome fits the action at its index.
abbrev pub AllFit : List Action → List ActionOutcome → Type 0
AllFit actions outcomes =
    (k : ℕ) (a : Action) (o : ActionOutcome)
    → get_elem? actions k ≡ some a
    → get_elem? outcomes k ≡ some o
    → Fits a o

pub transport_failure-IsFailure : (x : Error) → IsFailure (transport_failure x)
unfolding transport_failure closes
transport_failure-IsFailure timeout = tt
transport_failure-IsFailure (io (other_kind k)) = tt
transport_failure-IsFailure (io unexpected_eof) = tt
transport_failure-IsFailure (io connection_reset) = tt
transport_failure-IsFailure (io connection_aborted) = tt
transport_failure-IsFailure (io broken_pipe) = tt
transport_failure-IsFailure (io not_connected) = tt
transport_failure-IsFailure (framing x) = tt
transport_failure-IsFailure _ = tt
