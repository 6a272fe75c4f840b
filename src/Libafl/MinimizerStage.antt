-- ===== src/Libafl/MinimizerStage.antt =====
-- crates/stratamoto-libafl/src/stages/mod.rs: the loop of `IrMinimizerStage::perform`.
-- Executing a candidate is a parameter: `none` where `execute_input` fails, else whether the
-- candidate retains what the entry was kept for. The corpus, the files, the
-- count of the successful stages and the log are not modelled.
pub mod Ends
pub mod Cutting
use stratamoto.Base.{ℕ, zero, suc, ◌+◌, Bool, true, false, Option, none, some, ltb}
use stratamoto.Ir.Instruction.{Program}
use stratamoto.Ir.Builder.{is_statically_valid}
use stratamoto.Ir.Renumber.{remove_nops}
use stratamoto.Ir.Minimizers.{Minimizer, Next, yielded, exhausted, panicked, out_of_fuel}

-- The stage's own counter, and the locals `current_ir` and `success` of `perform`.
pub record StageState : Type 0 where
  pub consecutive_failures : ℕ
  pub current_ir : Program
  pub success : Bool

pub data Performed : Type 0 where
  performed : StageState → Performed
  stage_panicked stage_out_of_fuel : Performed

module _ {S : Type 0} (M : Minimizer S) (max : ℕ) (execute : Program → Option Bool) where
  -- the `while let` loop
  unfoldable pub reduce : ℕ → S → StageState → Performed
  reduce zero s st = stage_out_of_fuel
  reduce (suc fuel) s st = elim (M.next s) [
    | exhausted _ ↦ performed st
    | panicked ↦ stage_panicked
    | out_of_fuel ↦ stage_out_of_fuel
    | yielded prog s' ↦
        let failed : StageState = record st {
          consecutive_failures = st.consecutive_failures + 1;
        } in
        elim (ltb max st.consecutive_failures) [
          | true ↦ performed st
          | false ↦ elim (is_statically_valid prog) [
            | none ↦ stage_panicked
            | some false ↦ reduce fuel (M.failure s') failed
            | some true ↦ elim (execute prog) [
              | none ↦ reduce fuel s' st
              | some true ↦
                  reduce fuel (M.success s')
                    (record { consecutive_failures = 0; current_ir = prog; success = true })
              | some false ↦ reduce fuel (M.failure s') failed
            ]
          ]
        ]
  ]

  -- what follows the loop: a reduced program loses its nops
  unfoldable pub clean_up : Performed → Performed
  clean_up (performed st) = elim st.success [
    | false ↦ performed st
    | true ↦ elim (remove_nops st.current_ir) [
      | none ↦ stage_panicked
      | some p ↦ performed (record st { current_ir = p })
    ]
  ]
  clean_up stage_panicked = stage_panicked
  clean_up stage_out_of_fuel = stage_out_of_fuel

  -- `perform` on an entry that is not minimized yet, with the counter that the stage has
  unfoldable pub perform : ℕ → ℕ → Program → Performed
  perform fuel failures p = clean_up (
      reduce fuel (M.new p)
        (record { consecutive_failures = failures; current_ir = p; success = false }))
