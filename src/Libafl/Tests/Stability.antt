-- ===== src/Libafl/Tests/Stability.antt =====
-- The stability check of crates/stratamoto-libafl/src/stages/stability_check.rs on a target that never
-- gives the same map twice.
use stratamoto.Base.{ℕ, suc, refl, true, [], ◌∷◌, some, none, arith}
use stratamoto.Libafl.StabilityCheck.{MapState, exit_ok, Fuzzer, Checked, perform}
use stratamoto.Libafl.StabilityCheck.Performs.{Performs, perform-Performs}

abbrev unstable_target : Fuzzer ℕ
unstable_target = record {
  run_target = λ s. some ((exit_ok, s ∷ 4 ∷ []), suc s);
  fire = λ ratio s. some s;
}

abbrev one_covered : MapState
one_covered = record { history_map = 0 ∷ 4 ∷ []; num_covered_map_indexes = 1 }

abbrev unchecked : Checked ℕ
unchecked = record { seen = []; map_state = none; metadata = none; rest = 1 }

perform-Performs_example :
    Performs unstable_target 255 3 true
      (record unchecked { map_state = some one_covered })
      one_covered
      (perform unstable_target 255 4 3 true (record unchecked { map_state = some one_covered }))
perform-Performs_example =
    perform-Performs unstable_target 255 4 3 true unchecked one_covered (λ e. absurd (omega arith))
      refl
