-- ===== src/Libafl/VerifyTimeouts/Evaluates.antt =====
-- What the loop of crates/stratamoto-libafl/src/stages/verify_timeouts.rs does with the queued inputs.
use stratamoto.Base.{
  ℕ, suc, ◌+◌, ◌≤◌, ◌≡◌, ◌≢◌, refl, ap, Bool, true, false, List, [], ◌∷◌, ◌++◌, length, Option,
  none, some, arith,
}
use stratamoto.Libafl.StabilityCheck.{ExitKind, exit_ok, timeout, other_exit, is_timeout}
use stratamoto.Libafl.VerifyTimeouts.{
  Target, Hunt, is_interesting, append_metadata, judge, evaluate_input, evaluate_all,
}

-- What the loop changes of a hunt.
pub record Tally (I S : Type 0) : Type 0 where
  pub timeout_found : ℕ
  pub triggered : Bool
  pub filed : List I
  pub rest : S

abbrev pub tally_of : {I S : Type 0} → Hunt I S → Tally I S
tally_of h = record {
  timeout_found = h.timeout_found;
  triggered = h.triggered;
  filed = h.filed;
  rest = h.rest;
}

-- The hunt during the loop: under a timeout, with what is queued, and not capturing timeouts.
abbrev pub during : {I S : Type 0} → ℕ → Option (List I) → Tally I S → Hunt I S
during limit queue t = record {
  timeouts = queue;
  capture_timeouts = false;
  executor_timeout = limit;
  timeout_found = t.timeout_found;
  triggered = t.triggered;
  filed = t.filed;
  rest = t.rest;
}

module _ {I S : Type 0} (T : Target I S) (limit : ℕ) where
  -- the fuzzer's state after a run, and after the event of a timeout
  abbrev pub after_run : I → S → S
  after_run input s = (T.run limit input s).1

  abbrev pub after_event : I → Tally I S → S
  after_event input t = (T.fire (suc t.timeout_found) (after_run input t.rest)).1

  -- One input was run under the limit: it ended in time, or it timed out again, which was counted,
  -- reported and filed.
  pub data Evaluated (input : I) (t : Tally I S) : Tally I S → Type 0 where
    ended :
        (kind : ExitKind)
        → (T.run limit input t.rest).0 ≡ some kind
        → kind ≢ timeout
        → Evaluated input t (record t { triggered = false; rest = after_run input t.rest })
    timed_out :
        (T.run limit input t.rest).0 ≡ some timeout
        → (T.fire (suc t.timeout_found) (after_run input t.rest)).0 ≡ true
        → Evaluated input t (record {
          timeout_found = suc t.timeout_found;
          triggered = true;
          filed = t.filed ++ input ∷ [];
          rest = after_event input t;
        })

  -- The run failed, or it timed out and the event failed.
  pub data Failed (input : I) (t : Tally I S) : Tally I S → Type 0 where
    run_failed :
        (T.run limit input t.rest).0 ≡ none
        → Failed input t (record t { rest = after_run input t.rest })
    event_failed :
        (T.run limit input t.rest).0 ≡ some timeout
        → (T.fire (suc t.timeout_found) (after_run input t.rest)).0 ≡ false
        → Failed input t (record {
          timeout_found = suc t.timeout_found;
          triggered = true;
          filed = t.filed;
          rest = after_event input t;
        })

  -- The inputs were evaluated one after another.
  pub data Evaluates : List I → Tally I S → Tally I S → Type 0 where
    none_left : {t : Tally I S} → Evaluates [] t t
    next :
        {input : I} {inputs : List I} {t t₂ : Tally I S} (t₁ : Tally I S)
        → Evaluated input t t₁
        → Evaluates inputs t₁ t₂
        → Evaluates (input ∷ inputs) t t₂

  -- At most one timeout is found for each input.
  Evaluated-counted :
      {input : I} {t t' : Tally I S}
      → Evaluated input t t'
      → (t.timeout_found ≤ t'.timeout_found) × (t'.timeout_found ≤ t.timeout_found + 1)
  Evaluated-counted (ended kind g n) = (omega arith, omega arith)
  Evaluated-counted (timed_out g f) = (omega arith, omega arith)

  pub Evaluates-counted :
      {inputs : List I} {t t' : Tally I S}
      → Evaluates inputs t t'
      → (t.timeout_found ≤ t'.timeout_found) × (t'.timeout_found ≤ t.timeout_found + length inputs)
  Evaluates-counted none_left = (omega arith, omega arith)
  Evaluates-counted (next t₁ one more) =
      let first = Evaluated-counted one in
      let rest = Evaluates-counted more in (omega arith, omega arith)

  module _ (queue : Option (List I)) where
    -- What comes of one input.
    data One (input : I) (t : Tally I S) : Bool × Hunt I S → Type 0 where
      went : (t' : Tally I S) → Evaluated input t t' → One input t (true, during limit queue t')
      stopped : (t' : Tally I S) → Failed input t t' → One input t (false, during limit queue t')

    event-One :
        (input : I) (t : Tally I S) (fired : Bool)
        → (T.run limit input t.rest).0 ≡ some timeout
        → (T.fire (suc t.timeout_found) (after_run input t.rest)).0 ≡ fired
        → One input t (evaluate_input T input (during limit queue t))
    unfolding evaluate_input judge is_interesting append_metadata is_timeout
    event-One input t true g f = simp (g, evaluate_input, f) (went _ (timed_out g f))
    event-One input t false g f = simp (g, evaluate_input, f) (stopped _ (event_failed g f))

    evaluate_input-One :
        (input : I) (t : Tally I S) (x : Option ExitKind)
        → (T.run limit input t.rest).0 ≡ x
        → One input t (evaluate_input T input (during limit queue t))
    unfolding evaluate_input judge is_interesting is_timeout
    evaluate_input-One input t none g = simp (g, evaluate_input) (stopped _ (run_failed g))
    evaluate_input-One input t (some exit_ok) g =
        simp (g, evaluate_input) (went _ (ended exit_ok g (λ e. cc)))
    evaluate_input-One input t (some other_exit) g =
        simp (g, evaluate_input) (went _ (ended other_exit g (λ e. cc)))
    evaluate_input-One input t (some timeout) g = event-One input t _ g refl

    -- What comes of the loop over the inputs: all were evaluated, or those before one that failed.
    pub data Ran (inputs : List I) (t : Tally I S) : Bool × Hunt I S → Type 0 where
      finished :
          (t' : Tally I S) → Evaluates inputs t t' → Ran inputs t (true, during limit queue t')
      broken :
          (before : List I) (input : I) (after : List I) (t₁ t' : Tally I S)
          → inputs ≡ before ++ (input ∷ after)
          → Evaluates before t t₁
          → Failed input t₁ t'
          → Ran inputs t (false, during limit queue t')

    Ran-next :
        (input : I) (inputs : List I) (t t₁ : Tally I S) (out : Bool × Hunt I S)
        → Evaluated input t t₁
        → Ran inputs t₁ out
        → Ran (input ∷ inputs) t out
    Ran-next input inputs t t₁ _ one (finished t' more) = finished t' (next t₁ one more)
    Ran-next input inputs t t₁ _ one (broken before x after t₂ t' split more failed) =
        broken (input ∷ before) x after t₂ t' (ap (λ xs. input ∷ xs) split) (next t₁ one more)
          failed

    turn-Ran :
        (input : I) (inputs : List I) (t : Tally I S) (out : Bool × Hunt I S)
        → evaluate_input T input (during limit queue t) ≡ out
        → One input t out
        → ((t₁ : Tally I S) → Ran inputs t₁ (evaluate_all T inputs (during limit queue t₁)))
        → Ran (input ∷ inputs) t (evaluate_all T (input ∷ inputs) (during limit queue t))
    unfolding evaluate_all
    turn-Ran input inputs t _ e (went t₁ one) later =
        rw (e, evaluate_all) (Ran-next input inputs t t₁ _ one (later t₁))
    turn-Ran input inputs t _ e (stopped t' failed) later =
        rw (e, evaluate_all) (broken [] input inputs t t' refl none_left failed)

    pub evaluate_all-Ran :
        (inputs : List I) (t : Tally I S)
        → Ran inputs t (evaluate_all T inputs (during limit queue t))
    unfolding evaluate_all
    evaluate_all-Ran [] t = finished t none_left
    evaluate_all-Ran (input ∷ inputs) t =
        turn-Ran input inputs t _ refl (evaluate_input-One input t _ refl)
          (λ t₁. evaluate_all-Ran inputs t₁)
