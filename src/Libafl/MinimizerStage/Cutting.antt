-- ===== src/Libafl/MinimizerStage/Cutting.antt =====
-- The stage of crates/stratamoto-libafl/src/stages/mod.rs with the cutting minimizer.
use stratamoto.Base.{ℕ, zero, suc, ◌≤◌, ◌≡◌, refl, subst, false, Bool, Option, none, ltb, arith}
use stratamoto.Ir.Instruction.{Program}
use stratamoto.Ir.Minimizers.{yielded}
use stratamoto.Ir.Minimizers.Cutting.{CuttingMinimizer, cutting, next}
use stratamoto.Ir.Minimizers.Cutting.Candidates.{Given}
use stratamoto.Ir.Minimizers.Cutting.Laws.{CanCut, next-Given, next-again}
use stratamoto.Libafl.MinimizerStage.{StageState, reduce, stage_out_of_fuel}
use stratamoto.Libafl.MinimizerStage.Ends.{reduce-repeated}

-- When `next` of the cutting minimizer proposes a program, on a statically valid one no shorter than
-- the run, when each execution of the proposal fails, and when the counter is not over the limit, the
-- loop never ends: no number of rounds is enough.
pub reduce-failing_execution :
    (max : ℕ) (execute : Program → Option Bool) (m m' : CuttingMinimizer) (c : Program)
    (st : StageState)
    → CanCut m
    → next m ≡ yielded c m'
    → execute c ≡ none
    → st.consecutive_failures ≤ max
    → (fuel : ℕ) → reduce cutting max execute fuel m st ≡ stage_out_of_fuel
unfolding reduce
reduce-failing_execution max execute m m' c st h e x l zero = refl
reduce-failing_execution max execute m m' c st h e x l (suc fuel) =
    let g = subst (Given m) e (next-Given m h) in
    let t : ltb max st.consecutive_failures ≡ false = ground arith in
    rw (e, reduce, t, g.valid, x)
      (reduce-repeated cutting max execute c m' st (next-again m c m' h g) g.valid x l fuel)
