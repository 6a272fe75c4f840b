-- ===== src/Ir/Tests/Examples.antt =====
-- The theorems on crates/stratamoto-ir at concrete programs.
use stratamoto.Base.{◌≡◌, ◌↔◌, refl, true, false, List, [], ◌∷◌, ◌++◌, some, none, ok, err, panic}
use stratamoto.Ir.Variable.{job_declaration, from_id, id, from_id-eq-some_iff}
use stratamoto.Ir.Operation.{load_role, end_on_setup_success, begin_build_setup_connection}
use stratamoto.Ir.Errors.{invalid_block_end}
use stratamoto.Ir.Spec.{CompiledProgram}
use stratamoto.Ir.Builder.{
  IndexedVariable, ProgramBuilder, new, append, from_program, finalize, is_statically_valid,
}
use stratamoto.Ir.Builder.Invariant.{IsBuilt, new-IsBuilt}
use stratamoto.Ir.Builder.Safety.{AtGlobal, append-IsBuilt, append-eq-panic_iff}
use stratamoto.Ir.Builder.Validity.{
  Built, from_prefix-Built, finalize-eq-ok_iff, is_statically_valid-finalize,
}
use stratamoto.Ir.Builder.Faults.{
  stray_end, begin_build, is_statically_valid-stray_end, finalize-after_error,
}
use stratamoto.Ir.Compiler.{compile}
use stratamoto.Ir.Compiler.Types.{Sound}
use stratamoto.Ir.Compiler.Validated.{compile-Sound}
use stratamoto.Ir.Tests.Programs.{
  at, one_role, empty_program, setup_instructions, setup_program, setup_program_valid, plain_wire,
  plain_wire_laws, runs,
}

from_id-eq-some_iff_example : (from_id 1 ≡ some job_declaration) ↔ (1 ≡ id job_declaration)
from_id-eq-some_iff_example = from_id-eq-some_iff 1 job_declaration

append-IsBuilt_example : IsBuilt (append (at (load_role 0) []) (new one_role)).0
unfolding runs
append-IsBuilt_example =
    append-IsBuilt (at (load_role 0) []) (new one_role) (new-IsBuilt one_role) (λ e. cc)

append-eq-panic_iff_example : ((append stray_end (new one_role)).1 ≡ panic) ↔ (
    (stray_end.operation ≡ end_on_setup_success)
    × (stray_end.inputs ≡ [])
    × AtGlobal (new one_role))
append-eq-panic_iff_example = append-eq-panic_iff stray_end (new one_role) (new-IsBuilt one_role)

from_prefix-Built_example : (b : ProgramBuilder) × Built one_role setup_instructions b
unfolding runs
from_prefix-Built_example = (_, from_prefix-Built one_role setup_instructions refl)

finalize-eq-ok_iff_example : (finalize (new one_role) ≡ ok empty_program) ↔ (
    AtGlobal (new one_role)
    × (empty_program
        ≡ record { context = (new one_role).context; instructions = (new one_role).instructions }))
finalize-eq-ok_iff_example = finalize-eq-ok_iff (new one_role) empty_program (new-IsBuilt one_role)

is_statically_valid-finalize_example :
    (setup_program ≡ record { context = one_role; instructions = setup_instructions })
    × (is_statically_valid setup_program ≡ some true)
unfolding runs
is_statically_valid-finalize_example =
    is_statically_valid-finalize one_role setup_instructions refl refl

is_statically_valid-stray_end_example :
    is_statically_valid
      (record setup_program { instructions = setup_instructions ++ stray_end ∷ [] })
    ≡ none
is_statically_valid-stray_end_example =
    is_statically_valid-stray_end setup_program [] setup_program_valid

finalize-after_error_example :
    (b : ProgramBuilder) × (b₁ : ProgramBuilder) × (b₂ : ProgramBuilder) × (vars : List
      IndexedVariable)
    × (from_program setup_program ≡ ok b)
    × (append begin_build b ≡ (b₁, ok vars))
    × (append stray_end b₁
        ≡ (b₂, err (invalid_block_end begin_build_setup_connection end_on_setup_success)))
    × (finalize b₂
        ≡ ok (record setup_program { instructions = setup_instructions ++ begin_build ∷ [] }))
    × (is_statically_valid
          (record setup_program { instructions = setup_instructions ++ begin_build ∷ [] })
        ≡ some false)
finalize-after_error_example = finalize-after_error setup_program setup_program_valid

compile-Sound_example :
    Sound (λ (q : CompiledProgram). q.context ≡ one_role) (compile plain_wire setup_program)
compile-Sound_example = compile-Sound plain_wire setup_program plain_wire_laws setup_program_valid
