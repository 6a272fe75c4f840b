-- ===== src/Ir/Mutators.antt =====
-- crates/stratamoto-ir/src/mutators: the mutators that change the shape of a program.
-- A mutator that changes the program in place gives the changed one; on an error the program is
-- the old one. `panic` is a panic of the builder.
pub mod Valid
pub mod Values
use stratamoto.Base.{
  ℕ, zero, suc, ◌+◌, ◌-◌, Bool, true, false, List, [], ◌∷◌, ◌++◌, map, length, get_elem?, set,
  Option, none, some, if◌then◌else◌, ◌==◌, Result, ok, err, panic,
}
use stratamoto.Ir.Instruction.{Instruction, Program}
use stratamoto.Ir.Builder.{
  ProgramBuilder, IndexedVariable, Checked, from_prefix, finalize, validate, get_variable,
}
use stratamoto.Ir.Renumber.{count_outputs}
use stratamoto.Ir.Generators.{Rng, Gen, get_random_variable}
use stratamoto.Base.{take}

pub data MutatorError : Type 0 where
  no_mutations_available created_invalid_program : MutatorError

-- `map_err(|_| MutatorError::CreatedInvalidProgram)?`
abbrev pub or_invalid :
    {A B : Type 0} → Checked A → (A → Result MutatorError B) → Result MutatorError B
or_invalid (ok a) next = next a
or_invalid (err _) next = err created_invalid_program
or_invalid panic next = panic

unfoldable pub variable_count : List Instruction → ℕ
variable_count [] = 0
variable_count (i ∷ is) = count_outputs i.operation + variable_count is

unfoldable pub shift_inputs : ℕ → Instruction → Instruction
shift_inputs offset i = record i { inputs = map (λ input. input + offset) i.inputs }

unfoldable pub concatenated : Program → Program → Program
concatenated program other = record program {
  instructions =
      program.instructions
      ++ map (shift_inputs (variable_count program.instructions)) other.instructions;
}

unfoldable pub checked_splice : Program → Result MutatorError Program
checked_splice p = or_invalid (validate p) (λ _. ok p)

-- `ConcatMutator::splice`
unfoldable pub splice : Program → Program → Result MutatorError Program
unfolding checked_splice concatenated
splice program other = elim other.instructions [
  | [] ↦ err no_mutations_available
  | _ ∷ _ ↦ checked_splice (concatenated program other)
]

-- `ConcatMutator::mutate`
unfoldable pub concat_mutate : Program → Result MutatorError Program
unfolding splice
concat_mutate program = splice program program

-- `GeneratorMutator::mutate`
unfoldable pub generate_mutate :
    {S : Type 0} → Gen S (Unit {0}) → Program → S → Result MutatorError (Program × S)
generate_mutate generate program s =
    or_invalid (from_prefix program.context program.instructions) (λ builder.
      or_invalid (generate (builder, s))
        (λ generated. or_invalid (finalize generated.1.0) (λ p. ok (p, generated.1.1))))

-- the indices of the instructions that have inputs
unfoldable pub with_inputs : ℕ → List Instruction → List ℕ
with_inputs index [] = []
with_inputs index (i ∷ is) =
    let rest = with_inputs (index + 1) is in elim i.inputs [ [] ↦ rest | _ ∷ _ ↦ index ∷ rest ]

unfoldable pub rewire : Program → ℕ → Instruction → ℕ → ℕ → Program
rewire p index i slot replacement = record p {
  instructions = set p.instructions index (record i { inputs = set i.inputs slot replacement });
}

module _ {S : Type 0} (R : Rng S) where
  -- the end of `InputMutator::mutate`: another variable of the type of the current one
  unfoldable pub rewire_input :
      ProgramBuilder → Program → ℕ → Instruction → ℕ → S → Result MutatorError (Program × S)
  rewire_input builder p index i slot s = elim (get_elem? i.inputs slot) [
    | none ↦ panic
    | some current ↦ elim (get_variable builder current) [
      | none ↦ err created_invalid_program
      | some variable ↦ or_invalid (get_random_variable R variable.var (builder, s)) (λ found.
          elim found.0 [
            | none ↦ err no_mutations_available
            | some replacement ↦
                if replacement.index == current
                then err no_mutations_available
                else ok (rewire p index i slot replacement.index, found.1.1)
          ])
    ]
  ]

  -- `InputMutator::mutate`
  unfoldable pub input_mutate : Program → S → Result MutatorError (Program × S)
  unfolding with_inputs rewire_input
  input_mutate p s =
      let (chosen, s₁) = R.choose (with_inputs 0 p.instructions) s in
      elim chosen [
        | none ↦ err no_mutations_available
        | some index ↦ or_invalid (from_prefix p.context (take index p.instructions)) (λ builder.
            elim (get_elem? p.instructions index) [
              | none ↦ panic
              | some i ↦
                  let (slot, s₂) = R.random_range 0 (length i.inputs) s₁ in
                  rewire_input builder p index i slot s₂
            ])
      ]
