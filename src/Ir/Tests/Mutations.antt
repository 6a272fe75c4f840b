-- ===== src/Ir/Tests/Mutations.antt =====
-- The theorems on the generators and mutators of crates/stratamoto-ir with fixed random numbers.
use stratamoto.Base.{
  ℕ, ◌<◌, ◌≡◌, ◌≢◌, refl, true, false, List, [], ◌∷◌, ◌++◌, Option, none, some, arith, ok, ◌↔◌,
}
use stratamoto.Ir.Operation.{load_role, load_version}
use stratamoto.Ir.Instruction.{Instruction, Program}
use stratamoto.Ir.Builder.{append_op, new_variables, is_statically_valid}
use stratamoto.Ir.Generators.{
  Rng, RngLaws, ◌>>=◌, return, draw, append_step, one, append_one, append_unit, get_random_variable,
  candidates, connect_to, or_connect, random_bytes, random_extension, generate_raw_frame,
}
use stratamoto.Ir.Generators.Appends.{generate_raw_frame-Appends}
use stratamoto.Ir.Mutators.{splice, concatenated, generate_mutate}
use stratamoto.Ir.Mutators.Valid.{Spliced, splice-eq-ok_iff, generate_mutate-eq-ok}
use stratamoto.Ir.Mutators.Values.{
  other_index, mutate_operation, mutate_word, until_changed, word_candidate,
}
use stratamoto.Ir.Mutators.Values.Other.{other_index-eq-some, Replaces, mutate_operation-Replaces}
use stratamoto.Ir.Mutators.Values.Changed.{mutate_operation-ne}
use stratamoto.Ir.Tests.Programs.{one_role, empty_program, setup_program, runs}

choose_first : {A : Type 0} → List A → ℕ → Option A × ℕ
choose_first [] s = (none, s)
choose_first (a ∷ _) s = (some a, s)

-- Every range gives its lower end.
abbrev lowest : Rng ℕ
lowest = record {
  random_range = λ low high s. (low, s);
  random_bool = λ s. (false, s);
  random = λ bits s. (1, s);
  choose = choose_first;
  shuffle = λ order s. (order, s);
}

lowest_laws : RngLaws lowest
lowest_laws = record { in_range = λ low high s h. (omega arith, h) }

generate_mutate-eq-ok_example :
    (q : Program) × ((is_statically_valid q ≡ some true)
      × ((is : List Instruction) × (q
            ≡ record empty_program { instructions = empty_program.instructions ++ is })))
unfolding runs is_statically_valid generate_mutate generate_raw_frame ◌>>=◌ return draw append_step
    one append_one append_unit append_op get_random_variable candidates connect_to or_connect
    random_bytes random_extension choose_first new_variables
generate_mutate-eq-ok_example = (
  _,
  generate_mutate-eq-ok (generate_raw_frame lowest 0) empty_program _ 0 0
      (generate_raw_frame-Appends lowest 0) refl,
)

splice-eq-ok_iff_example :
    (splice setup_program setup_program ≡ ok (concatenated setup_program setup_program))
    ↔ Spliced setup_program setup_program (concatenated setup_program setup_program)
splice-eq-ok_iff_example =
    splice-eq-ok_iff setup_program setup_program (concatenated setup_program setup_program)

other_index-eq-some_example : (1 < 2) × ◌≢◌ {A = ℕ} 1 0
unfolding other_index
other_index-eq-some_example = other_index-eq-some lowest lowest_laws 0 2 1 5 refl

mutate_operation-Replaces_example :
    Replaces (record one_role { num_roles = 3 }) (load_role 2) (load_role 0)
unfolding mutate_operation other_index
mutate_operation-Replaces_example =
    mutate_operation-Replaces lowest lowest_laws 1 (load_role 2) (load_role 0)
      (record one_role { num_roles = 3 }) 5 refl

-- A version is rewritten from the first of the versions.
mutate_operation-ne_example : load_version 0 ≢ load_version 7
unfolding mutate_operation mutate_word until_changed word_candidate choose_first
mutate_operation-ne_example =
    mutate_operation-ne lowest lowest_laws 1 (load_version 7) (load_version 0) one_role 5 refl
