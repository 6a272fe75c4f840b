-- ===== src/Ir/Minimizers/Cutting.antt =====
-- crates/stratamoto-ir/src/minimizers/cutting.rs
pub mod Candidates
pub mod Laws
use stratamoto.Base.{
  ℕ, zero, suc, ◌-◌, ◌/◌, Bool, true, false, length, Option, none, some, leb, if◌then◌else◌, ◌==◌,
}
use stratamoto.Ir.Instruction.{Program}
use stratamoto.Ir.Minimizers.{
  Minimizer, Next, yielded, exhausted, panicked, out_of_fuel, mark, try_without,
}

pub record CuttingMinimizer : Type 0 where
  pub program : Program
  pub candidate : Option Program
  pub length : ℕ

unfoldable pub new : Program → CuttingMinimizer
new p = record { program = p; candidate = none; length = stratamoto.Base.length p.instructions / 2 }

unfoldable pub min : ℕ → ℕ → ℕ
min a b = if leb a b then a else b

take_candidate : Option Program → CuttingMinimizer → CuttingMinimizer
take_candidate none m = m
take_candidate (some candidate) m = record {
  program = candidate;
  candidate = none;
  length = min m.length (stratamoto.Base.length candidate.instructions / 2);
}

unfoldable pub success : CuttingMinimizer → CuttingMinimizer
unfolding take_candidate min
success m = take_candidate m.candidate m

unfoldable pub failure : CuttingMinimizer → CuttingMinimizer
failure m = record m { candidate = none; length = m.length / 2 }

-- the candidate of one round; a run longer than the program is the overflow of the subtraction
unfoldable pub cut : CuttingMinimizer → Option (Program × Bool)
cut m =
    let total = stratamoto.Base.length m.program.instructions in
    if leb m.length total then try_without (mark (total - m.length) total total) m.program else none

-- the loop of `next`, which halves `length`
unfoldable pub next_within : ℕ → CuttingMinimizer → Next CuttingMinimizer
next_within zero m = if m.length == 0 then exhausted m else out_of_fuel
next_within (suc fuel) m =
    let rest = next_within fuel (record m { length = m.length / 2 }) in
    if m.length == 0 then exhausted m else elim (cut m) [
      | none ↦ panicked
      | some (candidate, true) ↦ yielded candidate (record m { candidate = some candidate })
      | some (candidate, false) ↦ rest
    ]

unfoldable pub next : CuttingMinimizer → Next CuttingMinimizer
unfolding next_within
next m = next_within m.length m

-- `impl Minimizer for CuttingMinimizer`
abbrev pub cutting : Minimizer CuttingMinimizer
cutting = record {
  new = new;
  next = next;
  success = success;
  failure = failure;
  current = λ m. m.program;
}
