-- ===== src/Libafl/Tests/Timeouts.antt =====
-- The stage of crates/stratamoto-libafl/src/stages/verify_timeouts.rs on a target that hangs on one of
-- two inputs.
use stratamoto.Base.{ℕ, true, false, [], ◌∷◌, some, ◌==◌, if◌then◌else◌}
use stratamoto.Libafl.StabilityCheck.{exit_ok, timeout}
use stratamoto.Libafl.VerifyTimeouts.{Target, Hunt, new_stage, perform}
use stratamoto.Libafl.VerifyTimeouts.Verifies.{Verified, perform-Verified}

abbrev hangs_on_two : Target ℕ ℕ
hangs_on_two = record {
  run = λ limit input s. (some (if input == 2 then timeout else exit_ok), s);
  fire = λ count s. (true, s);
}

abbrev two_queued : Hunt ℕ ℕ
two_queued = record {
  timeouts = some (1 ∷ 2 ∷ []);
  capture_timeouts = true;
  executor_timeout = 50;
  timeout_found = 0;
  triggered = false;
  filed = [];
  rest = 0;
}

perform-Verified_example :
    Verified hangs_on_two
      (new_stage 50 4)
      two_queued
      (perform hangs_on_two (new_stage 50 4) two_queued)
perform-Verified_example = perform-Verified hangs_on_two (new_stage 50 4) two_queued
