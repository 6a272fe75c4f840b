-- ===== src/Ir/Tests/Programs.antt =====
-- A program with one setup and its success block, in the terms of crates/stratamoto-ir/src/lib.rs.
use stratamoto.Base.{
  ℕ, ◌≡◌, refl, Bool, true, List, [], ◌∷◌, Option, none, some, inr, length, leb, if◌then◌else◌,
  contains, set_insert, set_remove,
}
use stratamoto.Ir.Variable.{mining, id, variable_eq}
use stratamoto.Ir.Operation.{
  Operation, load_role, load_version, begin_build_setup_connection, set_versions,
  end_build_setup_connection, send_setup_connection, begin_on_setup_success, end_on_setup_success,
  probe, is_block_begin, is_block_end, is_nop, is_matching_block_begin, get_output_variables,
  get_inner_output_variables, num_inputs,
}
use stratamoto.Ir.Errors.{check_input_types, check_zipped}
use stratamoto.Ir.Instruction.{
  Instruction, ProgramContext, Program, entered_context_after_execution,
}
use stratamoto.Ir.Builder.{
  enter_scope, new, exit_scope, current_scope, resolve_input, resolve_inputs, check_context,
  check_instruction, leave_block, output_scope_id, inner_scope_id, enter_block, push_instruction,
  append, append_kept, append_all, from_prefix, from_program, finalize, validate,
  is_statically_valid,
}
use stratamoto.Ir.Spec.{Wire, WireLaws}

abbrev pub at : Operation → List ℕ → Instruction
at op inputs = record { inputs = inputs; operation = op }

abbrev pub one_role : ProgramContext
one_role = record { num_roles = 1; num_connections = 0; seed = 7 }

abbrev pub empty_program : Program
empty_program = record { context = one_role; instructions = [] }

abbrev pub setup_instructions : List Instruction
setup_instructions =
    at (load_role 0) []
    ∷ at Operation.connect (0 ∷ [])
    ∷ at (load_version 2) []
    ∷ at begin_build_setup_connection []
    ∷ at set_versions (3 ∷ 2 ∷ 2 ∷ [])
    ∷ at (end_build_setup_connection mining) (3 ∷ [])
    ∷ at (send_setup_connection mining) (1 ∷ 4 ∷ [])
    ∷ at (begin_on_setup_success mining) (5 ∷ [])
    ∷ at probe []
    ∷ at end_on_setup_success []
    ∷ []

abbrev pub setup_program : Program
setup_program = record { context = one_role; instructions = setup_instructions }

-- `is_statically_valid` with all that it calls open, for the runs of the tests.
unfoldable pub runs : Program → Option Bool
unfolding append check_instruction resolve_inputs resolve_input check_input_types check_zipped
    variable_eq check_context num_inputs is_block_end leave_block exit_scope is_matching_block_begin
    push_instruction output_scope_id inner_scope_id enter_block current_scope enter_scope is_nop
    is_block_begin entered_context_after_execution contains set_insert set_remove append_kept
    append_all from_prefix from_program new finalize validate is_statically_valid
    get_output_variables get_inner_output_variables
runs p = is_statically_valid p

pub setup_program_valid : is_statically_valid setup_program ≡ some true
unfolding runs
setup_program_valid = refl

-- A wire library that writes the message's minimum version.
abbrev pub plain_wire : Wire
plain_wire = record {
  protocol_of_id = some;
  to_str0_255 = λ s. if leb (length s) 255 then some s else none;
  to_writer = λ m. inr (m.min_version ∷ []);
  setup_connection_type = 0;
}

pub plain_wire_laws : WireLaws plain_wire
plain_wire_laws = record { knows_protocols = λ p. (id p, refl); bounds_texts = λ s. refl }
