-- ===== src/Libafl/MinimizerStage/Ends.antt =====
-- How the loop of `IrMinimizerStage::perform` in crates/stratamoto-libafl/src/stages/mod.rs ends.
use stratamoto.Base.{
  ℕ, zero, suc, ◌+◌, ◌≤◌, ◌<◌, ◌≡◌, ◌≢◌, ◌⊎◌, inl, inr, refl, ap, ◌∙◌, Bool, true, false, Option,
  none, some, ltb, Bool-cases, Option-cases, subst, arith,
}
use stratamoto.Ir.Instruction.{Program}
use stratamoto.Ir.Builder.{is_statically_valid}
use stratamoto.Ir.Minimizers.{
  Minimizer, MinimizerLaws, Proposal, Next, yielded, exhausted, panicked, out_of_fuel,
}
use stratamoto.Libafl.MinimizerStage.{
  StageState, Performed, performed, stage_out_of_fuel, reduce, clean_up, perform,
}

module _ {S : Type 0} (M : Minimizer S) (max : ℕ) (execute : Program → Option Bool) where
  -- What the loop makes of an entry: a statically valid program, which is the entry or a
  -- candidate that retained what the entry was kept for.
  pub record Reduced (st st' : StageState) : Type 0 where
    pub valid : is_statically_valid st'.current_ir ≡ some true
    pub kept :
        (execute st'.current_ir ≡ some true)
        ⊎ ((st'.current_ir ≡ st.current_ir) × (st'.success ≡ st.success))

  abbrev pub Ends : Performed → StageState → Type 0
  Ends r st = (st' : StageState) × (r ≡ performed st') × Reduced st st'

  after :
      (st mid : StageState)
      → mid.current_ir ≡ st.current_ir
      → mid.success ≡ st.success
      → (r : Performed) → Ends r mid
      → Ends r st
  after st mid e s r (st', q, h) = (
    st',
    q,
    record {
      valid = h.valid;
      kept = (elim h.kept [ inl k ↦ inl k | inr (k, k') ↦ inr (k ∙ e, k' ∙ s) ]);
    },
  )

  after_success :
      (st mid : StageState)
      → execute mid.current_ir ≡ some true
      → (r : Performed) → Ends r mid
      → Ends r st
  after_success st mid e r (st', q, h) = (
    st',
    q,
    record {
      valid = h.valid;
      kept = inl (elim h.kept [ inl k ↦ k | inr (k, _) ↦ ap execute k ∙ e ]);
    },
  )

  same : (st : StageState) → is_statically_valid st.current_ir ≡ some true → Ends (performed st) st
  same st v = (st, refl, record { valid = v; kept = inr (refl, refl) })

  -- The loop ends from every state that is ready and whose measure is below the fuel.
  abbrev AllEnd : MinimizerLaws M → ℕ → Type 0
  AllEnd L fuel =
      (s : S) (st : StageState)
      → L.Ready s
      → L.measure s < fuel
      → is_statically_valid st.current_ir ≡ some true
      → Ends (reduce M max execute fuel s st) st

  round :
      (L : MinimizerLaws M)
      → ((p : Program) → execute p ≢ none)
      → (fuel : ℕ) → AllEnd L fuel
      → (s : S) (st : StageState) → L.Ready s
      → L.measure s < suc fuel
      → is_statically_valid st.current_ir ≡ some true
      → (r : Next S) → M.next s ≡ r
      → Ends (reduce M max execute (suc fuel) s st) st
  unfolding reduce
  round L runs fuel rest s st h f v (exhausted s') e = rw (e, reduce) (same st v)
  round L runs fuel rest s st h f v panicked e =
      absurd (subst (Proposal M L.Ready L.measure s) e (L.next-Ready s h))
  round L runs fuel rest s st h f v out_of_fuel e =
      absurd (subst (Proposal M L.Ready L.measure s) e (L.next-Ready s h))
  round L runs fuel rest s st h f v (yielded c s') e =
      let (vc, ((rs, ms), ((rf, mf), _))) =
        subst (Proposal M L.Ready L.measure s) e (L.next-Ready s h) in
      let won : StageState = record { consecutive_failures = 0; current_ir = c; success = true } in
      let lost : StageState = record st { consecutive_failures = st.consecutive_failures + 1 } in
      elim (Bool-cases (ltb max st.consecutive_failures)) [
        | inl t ↦ rw (e, reduce, t) (same st v)
        | inr t ↦ elim (Option-cases (execute c)) [
          | inl x ↦ absurd (runs c x)
          | inr (kept, x) ↦ elim (Bool-cases kept) [
            | inl k ↦
                rw (e, reduce, t, vc, x, k)
                  (after_success st won (x ∙ ap some k) _
                    (rest (M.success s') won rs (omega arith) vc))
            | inr k ↦
                rw (e, reduce, t, vc, x, k)
                  (after st lost refl refl _ (rest (M.failure s') lost rf (omega arith) v))
          ]
        ]
      ]

  -- With a lawful minimizer in a state that is ready and whose measure is below the fuel, an
  -- executor that does not fail and a statically valid program to start from, the loop ends without
  -- running out of fuel, and what it leaves is statically valid: a candidate that retained what the
  -- entry was kept for, or the program it started from with the mark of a success as it was.
  pub reduce-Ends :
      (L : MinimizerLaws M)
      → ((p : Program) → execute p ≢ none)
      → (fuel : ℕ) (s : S) (st : StageState) → L.Ready s
      → L.measure s < fuel
      → is_statically_valid st.current_ir ≡ some true
      → Ends (reduce M max execute fuel s st) st
  reduce-Ends L runs zero s st h f v = absurd (omega arith)
  reduce-Ends L runs (suc fuel) s st h f v =
      round L runs fuel (reduce-Ends L runs fuel) s st h f v (M.next s) refl

  -- With a lawful minimizer, once the counter is over the limit the stage leaves every statically valid entry as it is,
  -- and the counter too.
  pub perform-over_limit :
      (L : MinimizerLaws M) (fuel failures : ℕ) (p : Program)
      → is_statically_valid p ≡ some true
      → max < failures
      → perform M max execute (suc fuel) failures p
        ≡ performed (record { consecutive_failures = failures; current_ir = p; success = false })
  unfolding perform reduce clean_up
  perform-over_limit L fuel failures p v over =
      stops (M.next (M.new p)) refl (L.next-Ready (M.new p) (L.new-Ready p v))
    where
      entry : StageState
      entry = record { consecutive_failures = failures; current_ir = p; success = false }

      stops :
          (r : Next S)
          → M.next (M.new p) ≡ r
          → Proposal M L.Ready L.measure (M.new p) r
          → perform M max execute (suc fuel) failures p ≡ performed entry
      stops (exhausted s') e h = rw (e, perform, reduce) refl
      stops (yielded c s') e h =
          let t : ltb max failures ≡ true = ground arith in rw (e, perform, reduce, t) refl
      stops panicked e h = absurd h
      stops out_of_fuel e h = absurd h

  -- A proposal that comes again and again is executed for ever if its execution fails.
  pub reduce-repeated :
      (c : Program) (s : S) (st : StageState)
      → M.next s ≡ yielded c s
      → is_statically_valid c ≡ some true
      → execute c ≡ none
      → st.consecutive_failures ≤ max
      → (fuel : ℕ) → reduce M max execute fuel s st ≡ stage_out_of_fuel
  unfolding reduce
  reduce-repeated c s st e v x h zero = refl
  reduce-repeated c s st e v x h (suc fuel) =
      let t : ltb max st.consecutive_failures ≡ false = ground arith in
      rw (e, reduce, t, v, x) (reduce-repeated c s st e v x h fuel)
