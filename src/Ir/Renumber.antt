-- ===== src/Ir/Renumber.antt =====
-- crates/stratamoto-ir/src/lib.rs: `Program::without` and `Program::remove_nops`.
-- `none` is the panic of `mapping[*input]` out of range.
pub mod Closed
pub mod Cut
use stratamoto.Base.{
  ℕ, zero, suc, ◌+◌, Bool, true, false, List, [], ◌∷◌, ◌++◌, map, get_elem?, replicate, Option,
  none, some, if◌then◌else◌,
}
use stratamoto.Base.Options.{◌>>=◌}
use stratamoto.Ir.Operation.{Operation, num_outputs, num_inner_outputs, is_nop}
use stratamoto.Ir.Instruction.{Instruction, Program}

-- `remove.get(index).copied().unwrap_or(false)`
unfoldable pub dropped : List Bool → ℕ → Bool
dropped remove index = elim (get_elem? remove index) [ none ↦ false | some flag ↦ flag ]

unfoldable pub count_outputs : Operation → ℕ
unfolding num_outputs num_inner_outputs
count_outputs op = num_outputs op + num_inner_outputs op

-- `n` entries from `kept`, each one more than the one before
abbrev pub count_from : ℕ → ℕ → List ℕ
count_from kept zero = []
count_from kept (suc n) = kept ∷ count_from (kept + 1) n

-- what an instruction adds to `mapping`, and to `kept`
unfoldable pub mapped : Bool → ℕ → ℕ → List ℕ
mapped gone kept outputs = if gone then replicate outputs kept else count_from kept outputs

unfoldable pub kept_after : Bool → ℕ → ℕ → ℕ
kept_after gone kept outputs = if gone then kept else kept + outputs

-- the first loop of `without`
unfoldable pub build_mapping : List Bool → ℕ → ℕ → List Instruction → List ℕ
unfolding mapped kept_after
build_mapping remove index kept [] = []
build_mapping remove index kept (i ∷ is) =
    let outputs = count_outputs i.operation in
    let gone = dropped remove index in
    mapped gone kept outputs ++ build_mapping remove (index + 1) (kept_after gone kept outputs) is

unfoldable pub renumber_inputs : List ℕ → List ℕ → Option (List ℕ)
renumber_inputs mapping [] = some []
renumber_inputs mapping (input ∷ inputs) = do
  input' ← get_elem? mapping input
  inputs' ← renumber_inputs mapping inputs
  some (input' ∷ inputs')

unfoldable pub renumber : List ℕ → Instruction → Option Instruction
renumber mapping i = do
  inputs ← renumber_inputs mapping i.inputs
  some (record i { inputs = inputs })

-- the `filter` and the `map` of `without`
unfoldable pub keep_rest : List ℕ → List Bool → ℕ → List Instruction → Option (List Instruction)
keep_rest mapping remove index [] = some []
keep_rest mapping remove index (i ∷ is) =
    let rest = keep_rest mapping remove (index + 1) is in
    if dropped remove index then rest else (do i' ← renumber mapping i; is' ← rest; some (i' ∷ is'))

unfoldable pub without : List Bool → Program → Option Program
without remove p = do
  is ← keep_rest (build_mapping remove 0 0 p.instructions) remove 0 p.instructions
  some (record { context = p.context; instructions = is })

unfoldable pub remove_nops : Program → Option Program
remove_nops p = without (map (λ (i : Instruction). is_nop i.operation) p.instructions) p
