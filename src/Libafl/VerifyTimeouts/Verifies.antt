-- ===== src/Libafl/VerifyTimeouts/Verifies.antt =====
-- What the stage of crates/stratamoto-libafl/src/stages/verify_timeouts.rs leaves behind.
use stratamoto.Base.{
  ◌+◌, ◌≤◌, ◌≡◌, refl, sym, subst, Bool, true, false, List, [], ◌∷◌, ◌++◌, length, some,
}
use stratamoto.Libafl.VerifyTimeouts.{
  Target, VerifyTimeoutsStage, Hunt, queue_of, evaluate_all, restore, verify, perform,
}
use stratamoto.Libafl.VerifyTimeouts.Evaluates.{
  Tally, tally_of, during, Evaluates, Evaluates-counted, Failed, Ran, finished, broken,
  evaluate_all-Ran,
}

module _ {I S : Type 0} (T : Target I S) where
  -- How the stage ends: there was nothing to verify; or the queued inputs were evaluated under the longer
  -- timeout, one after another and without the capture, the queue is empty, the timeout is that of the
  -- campaign again and timeouts are captured; or the inputs before one were evaluated so and that one
  -- failed, and the queue, the longer timeout and the missing capture stay.
  pub data Verified (stage : VerifyTimeoutsStage) (h : Hunt I S) : Bool × Hunt I S → Type 0 where
    nothing_queued :
        queue_of h.timeouts ≡ [] → Verified stage h (true, record h { timeouts = some [] })
    all_verified :
        (t : Tally I S)
        → Evaluates T stage.multiple_of_timeout (queue_of h.timeouts) (tally_of h) t
        → (h.timeout_found ≤ t.timeout_found)
          × (t.timeout_found ≤ h.timeout_found + length (queue_of h.timeouts))
        → Verified stage h (
          true,
          record {
            timeouts = some [];
            capture_timeouts = true;
            executor_timeout = stage.original_timeout;
            timeout_found = t.timeout_found;
            triggered = t.triggered;
            filed = t.filed;
            rest = t.rest;
          },
        )
    interrupted :
        (before : List I) (input : I) (after : List I) (t₁ t : Tally I S)
        → queue_of h.timeouts ≡ before ++ (input ∷ after)
        → Evaluates T stage.multiple_of_timeout before (tally_of h) t₁
        → Failed T stage.multiple_of_timeout input t₁ t
        → Verified stage h (false, during stage.multiple_of_timeout (some (queue_of h.timeouts)) t)

  Ran-Verified :
      (stage : VerifyTimeoutsStage) (h : Hunt I S) (out : Bool × Hunt I S)
      → Ran T stage.multiple_of_timeout
          (some (queue_of h.timeouts))
          (queue_of h.timeouts)
          (tally_of h)
          out
      → Verified stage h (restore T stage out)
  unfolding restore
  Ran-Verified stage h _ (finished t all) = all_verified t all (Evaluates-counted T _ all)
  Ran-Verified stage h _ (broken before input after t₁ t split some_done failed) =
      interrupted before input after t₁ t split some_done failed

  verify-Verified :
      (stage : VerifyTimeoutsStage) (h : Hunt I S) (inputs : List I)
      → queue_of h.timeouts ≡ inputs
      → Verified stage h (verify T stage inputs (record h { timeouts = some inputs }))
  unfolding verify
  verify-Verified stage h [] e = nothing_queued e
  verify-Verified stage h (input ∷ inputs) e = Ran-Verified stage h _ (
      subst
        (λ xs. Ran T stage.multiple_of_timeout (some xs) xs (tally_of h) (
          evaluate_all T (input ∷ inputs)
            (during stage.multiple_of_timeout (some (input ∷ inputs)) (tally_of h))))
        (sym e)
        (evaluate_all-Ran T stage.multiple_of_timeout (some (input ∷ inputs)) (input ∷ inputs)
          (tally_of h)))

  -- Verifying timeouts ends in one of three ways: nothing was queued; or every queued input was
  -- evaluated in order under the longer timeout and without the capture, each that timed out again
  -- counted, reported and filed, the queue is empty, the timeout is the configured one and timeouts are
  -- captured again; or the inputs before one were evaluated so, and the run of that one or its event
  -- failed, and the queue, the longer timeout and the switched off capture stay.
  pub perform-Verified :
      (stage : VerifyTimeoutsStage) (h : Hunt I S) → Verified stage h (perform T stage h)
  unfolding perform
  perform-Verified stage h = verify-Verified stage h (queue_of h.timeouts) refl
