-- ===== src/Ir/Minimizers/Nopping.antt =====
-- crates/stratamoto-ir/src/minimizers/nopping.rs
pub mod Skipped
pub mod Candidates
use stratamoto.Base.{
  ℕ, zero, suc, ◌+◌, true, false, length, set, get_elem?, Option, none, some, if◌then◌else◌, not,
  ◌||◌,
}
use stratamoto.Ir.Operation.{is_nop}
use stratamoto.Ir.Instruction.{Instruction, Program, is_noppable, to_nop}
use stratamoto.Ir.Builder.{is_statically_valid}
use stratamoto.Ir.Minimizers.{Minimizer, Next, yielded, exhausted, panicked, out_of_fuel}

pub record NoppingMinimizer : Type 0 where
  pub program : Program
  pub candidate : Option Program
  pub next_index : ℕ

unfoldable pub new : Program → NoppingMinimizer
new p = record { program = p; candidate = none; next_index = 0 }

take_candidate : Option Program → NoppingMinimizer → NoppingMinimizer
take_candidate none m = m
take_candidate (some candidate) m = record m { program = candidate; candidate = none }

unfoldable pub success : NoppingMinimizer → NoppingMinimizer
unfolding take_candidate
success m = take_candidate m.candidate m

unfoldable pub failure : NoppingMinimizer → NoppingMinimizer
failure m = record m { candidate = none; next_index = m.next_index + 1 }

-- `candidate.instructions[self.next].nop()`
unfoldable pub nop_at : ℕ → Instruction → Program → Program
nop_at index i p = record p { instructions = set p.instructions index (to_nop i) }

-- the loop of `next`, whose counter runs up to the number of instructions
unfoldable pub next_within : ℕ → NoppingMinimizer → Next NoppingMinimizer
next_within zero m = elim (get_elem? m.program.instructions m.next_index) [
  | none ↦ exhausted m
  | some _ ↦ out_of_fuel
]
next_within (suc fuel) m =
    let rest = next_within fuel (record m { next_index = m.next_index + 1 }) in
    elim (get_elem? m.program.instructions m.next_index) [
      | none ↦ exhausted m
      | some i ↦
          if not (is_noppable i) || is_nop i.operation
          then rest
          else let candidate = nop_at m.next_index i m.program in
            elim (is_statically_valid candidate) [
              | none ↦ panicked
              | some true ↦ yielded candidate (record m { candidate = some candidate })
              | some false ↦ rest
            ]
    ]

unfoldable pub next : NoppingMinimizer → Next NoppingMinimizer
unfolding next_within
next m = next_within (length m.program.instructions) m

-- `impl Minimizer for NoppingMinimizer`
abbrev pub nopping : Minimizer NoppingMinimizer
nopping = record {
  new = new;
  next = next;
  success = success;
  failure = failure;
  current = λ m. m.program;
}
