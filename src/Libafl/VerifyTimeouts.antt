-- ===== src/Libafl/VerifyTimeouts.antt =====
-- crates/stratamoto-libafl/src/stages/verify_timeouts.rs, and the feedback of src/feedbacks.rs that
-- queues what the stage verifies: the two share the queue and the flag `capture_timeouts`.
-- The target is a parameter: a run under a timeout gives how it ended, where it does not fail, and a
-- change of the fuzzer's state; so does the firing of an event. I is an input, S the fuzzer's state.
-- What evaluating an input does besides a run is to ask the feedback and to file what it finds.
pub mod Evaluates
pub mod Verifies
use stratamoto.Base.{
  ℕ, suc, ◌+◌, ◌*◌, Bool, true, false, ◌&&◌, List, [], ◌∷◌, ◌++◌, Option, none, some, if◌then◌else◌,
}
use stratamoto.Libafl.StabilityCheck.{ExitKind, is_timeout}

pub record Target (I S : Type 0) : Type 0 where
  pub run : ℕ → I → S → Option ExitKind × S
  pub fire : ℕ → S → Bool × S

-- the stage
pub record VerifyTimeoutsStage : Type 0 where
  pub multiple_of_timeout : ℕ
  pub original_timeout : ℕ

-- `VerifyTimeoutsStage::new`
abbrev pub new_stage : ℕ → ℕ → VerifyTimeoutsStage
new_stage configured_timeout multiple = record {
  multiple_of_timeout = configured_timeout * multiple;
  original_timeout = configured_timeout;
}

-- The queue, the flag, the executor's timeout and the state of `CaptureTimeoutFeedback`, with the inputs
-- that it filed.
pub record Hunt (I S : Type 0) : Type 0 where
  pub timeouts : Option (List I)
  pub capture_timeouts : Bool
  pub executor_timeout : ℕ
  pub timeout_found : ℕ
  pub triggered : Bool
  pub filed : List I
  pub rest : S

-- `metadata_or_insert_with(TimeoutsToVerify::new)`
unfoldable pub queue_of : {I : Type 0} → Option (List I) → List I
queue_of none = []
queue_of (some inputs) = inputs

module _ {I S : Type 0} where
  -- `CaptureTimeoutFeedback::is_interesting`
  unfoldable pub is_interesting : I → ExitKind → Hunt I S → Bool × Hunt I S
  unfolding queue_of is_timeout
  is_interesting input kind h =
      if h.capture_timeouts && is_timeout kind
      then (
        false,
        record h { triggered = false; timeouts = some (queue_of h.timeouts ++ input ∷ []) },
      )
      else (is_timeout kind, record h { triggered = is_timeout kind })

  module _ (T : Target I S) where
    -- `CaptureTimeoutFeedback::append_metadata`; whether it did not fail
    unfoldable pub append_metadata : I → Hunt I S → Bool × Hunt I S
    append_metadata input h =
        let count = suc h.timeout_found in
        let (fired, s) = T.fire count h.rest in
        if h.triggered
        then (
          fired,
          record h {
            timeout_found = count;
            filed = if fired then h.filed ++ input ∷ [] else h.filed;
            rest = s;
          },
        )
        else (true, h)

    -- what the feedback finds of a run is filed
    unfoldable pub judge : I → Bool × Hunt I S → Bool × Hunt I S
    unfolding append_metadata
    judge input (interesting, h) = if interesting then append_metadata input h else (true, h)

    -- `evaluate_input`; whether it did not fail
    unfoldable pub evaluate_input : I → Hunt I S → Bool × Hunt I S
    unfolding judge is_interesting
    evaluate_input input h =
        let (ended, s) = T.run h.executor_timeout input h.rest in
        elim ended [
          | none ↦ (false, record h { rest = s })
          | some kind ↦ judge input (is_interesting input kind (record h { rest = s }))
        ]

    -- the loop over the queue
    unfoldable pub evaluate_all : List I → Hunt I S → Bool × Hunt I S
    unfolding evaluate_input
    evaluate_all [] h = (true, h)
    evaluate_all (input ∷ inputs) h =
        let (going, h₁) = evaluate_input input h in
        let later = evaluate_all inputs h₁ in if going then later else (false, h₁)

    -- what is done after the loop, where nothing failed
    unfoldable pub restore : VerifyTimeoutsStage → Bool × Hunt I S → Bool × Hunt I S
    restore stage (true, h) = (
      true,
      record h {
        executor_timeout = stage.original_timeout;
        capture_timeouts = true;
        timeouts = some [];
      },
    )
    restore stage (false, h) = (false, h)

    unfoldable pub verify : VerifyTimeoutsStage → List I → Hunt I S → Bool × Hunt I S
    unfolding restore evaluate_all
    verify stage [] h = (true, h)
    verify stage (input ∷ inputs) h = restore stage (
        evaluate_all (input ∷ inputs)
          (record h { executor_timeout = stage.multiple_of_timeout; capture_timeouts = false }))

    -- `VerifyTimeoutsStage::perform`; whether it did not fail
    unfoldable pub perform : VerifyTimeoutsStage → Hunt I S → Bool × Hunt I S
    unfolding verify queue_of
    perform stage h =
        let inputs = queue_of h.timeouts in
        verify stage inputs (record h { timeouts = some inputs })
