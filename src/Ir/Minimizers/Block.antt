-- ===== src/Ir/Minimizers/Block.antt =====
-- crates/stratamoto-ir/src/minimizers/block.rs
pub mod Candidates
pub mod Delimiters
pub mod Matching
pub mod Flags
pub mod Dropped
use stratamoto.Base.{
  ℕ, zero, suc, ◌+◌, ◌-◌, Bool, true, false, List, [], ◌∷◌, length, get_elem?, Option, none, some,
  if◌then◌else◌, ◌==◌,
}
use stratamoto.Ir.Operation.{is_block_begin, is_block_end}
use stratamoto.Ir.Instruction.{Instruction, Program}
use stratamoto.Ir.Minimizers.{
  Minimizer, Next, yielded, exhausted, panicked, out_of_fuel, mark, try_without,
}

pub record BlockMinimizer : Type 0 where
  pub program : Program
  pub candidate : Option Program
  pub next_index : ℕ

unfoldable pub new : Program → BlockMinimizer
new p = record { program = p; candidate = none; next_index = 0 }

take_candidate : Option Program → BlockMinimizer → BlockMinimizer
take_candidate none m = m
take_candidate (some candidate) m = record { program = candidate; candidate = none; next_index = 0 }

unfoldable pub success : BlockMinimizer → BlockMinimizer
unfolding take_candidate
success m = take_candidate m.candidate m

unfoldable pub failure : BlockMinimizer → BlockMinimizer
failure m = record m { candidate = none; next_index = m.next_index + 1 }

-- `skip(begin)`
unfoldable pub skip : ℕ → List Instruction → List Instruction
skip zero is = is
skip (suc n) [] = []
skip (suc n) (_ ∷ is) = skip n is

-- The loop of `matching_end`, from the instruction at an index on. The depth stops at 0, where the
-- source underflows: an end before any beginning.
unfoldable pub matching_from : ℕ → ℕ → List Instruction → Option ℕ
matching_from index depth [] = none
matching_from index depth (i ∷ is) =
    let depth₁ = if is_block_begin i.operation then depth + 1 else depth in
    let next_depth = if is_block_end i.operation then depth₁ - 1 else depth₁ in
    let rest = matching_from (index + 1) next_depth is in
    if is_block_end i.operation then (if next_depth == 0 then some index else rest) else rest

unfoldable pub matching_end : Program → ℕ → Option ℕ
unfolding matching_from skip
matching_end p begin = matching_from begin 0 (skip begin p.instructions)

-- the candidate without the block from one index to another
unfoldable pub drop_block : ℕ → ℕ → Program → Option (Program × Bool)
drop_block begin end p = try_without (mark begin (end + 1) (length p.instructions)) p

-- the loop of `next`, whose counter runs up to the number of instructions
unfoldable pub next_within : ℕ → BlockMinimizer → Next BlockMinimizer
next_within zero m = elim (get_elem? m.program.instructions m.next_index) [
  | none ↦ exhausted m
  | some _ ↦ out_of_fuel
]
next_within (suc fuel) m =
    let rest = next_within fuel (record m { next_index = m.next_index + 1 }) in
    elim (get_elem? m.program.instructions m.next_index) [
      | none ↦ exhausted m
      | some i ↦
          if is_block_begin i.operation
          then elim (matching_end m.program m.next_index) [
            | none ↦ rest
            | some end ↦ elim (drop_block m.next_index end m.program) [
              | none ↦ panicked
              | some (candidate, true) ↦ yielded candidate (record m { candidate = some candidate })
              | some (candidate, false) ↦ rest
            ]
          ]
          else rest
    ]

unfoldable pub next : BlockMinimizer → Next BlockMinimizer
unfolding next_within
next m = next_within (length m.program.instructions) m

-- `impl Minimizer for BlockMinimizer`
abbrev pub blocks : Minimizer BlockMinimizer
blocks = record {
  new = new;
  next = next;
  success = success;
  failure = failure;
  current = λ m. m.program;
}
