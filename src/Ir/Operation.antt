-- ===== src/Ir/Operation.antt =====
-- crates/stratamoto-ir/src/operation.rs: the operations of a program and their signatures.
use stratamoto.Base.{ℕ, Bool, true, false, List, [], ◌∷◌, length, replicate}
use stratamoto.Ir.Variable.{Protocol, Variable}

pub data Operation : Type 0 where
  nop : ℕ → ℕ → Operation
  load_role load_connection load_version load_flags load_port : ℕ → Operation
  -- a text or a byte vector is the list of its bytes
  load_str load_bytes : List ℕ → Operation
  -- in nanoseconds
  load_duration : ℕ → Operation
  connect : Operation
  begin_build_setup_connection : Operation
  set_versions set_flags set_endpoint set_device_info : Operation
  end_build_setup_connection : Protocol → Operation
  send_setup_connection : Protocol → Operation
  begin_on_setup_success : Protocol → Operation
  end_on_setup_success : Operation
  -- the message type and the extension type
  send_raw_frame : ℕ → ℕ → Operation
  advance_time : Operation
  probe : Operation

unfoldable pub is_block_begin : Operation → Bool
is_block_begin begin_build_setup_connection = true
is_block_begin (begin_on_setup_success _) = true
is_block_begin _ = false

unfoldable pub is_block_end : Operation → Bool
is_block_end (end_build_setup_connection _) = true
is_block_end end_on_setup_success = true
is_block_end _ = false

-- `is_nop` is the source's `matches!(_, Operation::Nop { .. })`.
unfoldable pub is_nop : Operation → Bool
is_nop (nop _ _) = true
is_nop _ = false

is_begin_build : Operation → Bool
is_begin_build begin_build_setup_connection = true
is_begin_build _ = false

is_begin_success : Operation → Bool
is_begin_success (begin_on_setup_success _) = true
is_begin_success _ = false

-- The end is the first argument, as `self` is, and the beginning the second.
unfoldable pub is_matching_block_begin : Operation → Operation → Bool
unfolding is_begin_build is_begin_success
is_matching_block_begin (end_build_setup_connection _) other = is_begin_build other
is_matching_block_begin end_on_setup_success other = is_begin_success other
is_matching_block_begin _ other = false

unfoldable pub get_output_variables : Operation → List Variable
get_output_variables (nop outputs _) = replicate outputs Variable.nop
get_output_variables (load_role _) = Variable.role ∷ []
get_output_variables (load_connection _) = Variable.connection ∷ []
get_output_variables (load_version _) = Variable.version ∷ []
get_output_variables (load_flags _) = Variable.flags ∷ []
get_output_variables (load_port _) = Variable.port ∷ []
get_output_variables (load_str _) = Variable.str ∷ []
get_output_variables (load_bytes _) = Variable.bytes ∷ []
get_output_variables (load_duration _) = Variable.duration ∷ []
get_output_variables connect = Variable.connection ∷ []
get_output_variables (end_build_setup_connection p) = Variable.const_setup_connection p ∷ []
get_output_variables (send_setup_connection p) = Variable.setup_attempt p ∷ []
get_output_variables _ = []

unfoldable pub get_inner_output_variables : Operation → List Variable
get_inner_output_variables (nop _ inner_outputs) = replicate inner_outputs Variable.nop
get_inner_output_variables begin_build_setup_connection = Variable.mut_setup_connection ∷ []
get_inner_output_variables (begin_on_setup_success p) = Variable.session p ∷ []
get_inner_output_variables _ = []

unfoldable pub get_input_variables : Operation → List Variable
get_input_variables connect = Variable.role ∷ []
get_input_variables set_versions =
    Variable.mut_setup_connection ∷ Variable.version ∷ Variable.version ∷ []
get_input_variables set_flags = Variable.mut_setup_connection ∷ Variable.flags ∷ []
get_input_variables set_endpoint = Variable.mut_setup_connection ∷ Variable.str ∷ Variable.port ∷ []
get_input_variables set_device_info =
    Variable.mut_setup_connection ∷ Variable.str ∷ Variable.str ∷ Variable.str ∷ Variable.str ∷ []
get_input_variables (end_build_setup_connection _) = Variable.mut_setup_connection ∷ []
get_input_variables (send_setup_connection p) =
    Variable.connection ∷ Variable.const_setup_connection p ∷ []
get_input_variables (begin_on_setup_success p) = Variable.setup_attempt p ∷ []
get_input_variables (send_raw_frame _ _) = Variable.connection ∷ Variable.bytes ∷ []
get_input_variables advance_time = Variable.duration ∷ []
get_input_variables _ = []

unfoldable pub num_outputs : Operation → ℕ
unfolding get_output_variables
num_outputs op = length (get_output_variables op)

unfoldable pub num_inner_outputs : Operation → ℕ
unfolding get_inner_output_variables
num_inner_outputs op = length (get_inner_output_variables op)

unfoldable pub num_inputs : Operation → ℕ
unfolding get_input_variables
num_inputs op = length (get_input_variables op)
