-- ===== src/Ir/Minimizers/Nopping/Skipped.antt =====
-- The instructions that `NoppingMinimizer` of crates/stratamoto-ir/src/minimizers/nopping.rs passes over.
use stratamoto.Base.{ℕ, ◌≡◌, refl, ◌⊎◌, true, false, ◌||◌, not, List, inl, inr}
use stratamoto.Ir.Variable.{Protocol}
use stratamoto.Ir.Operation.{
  Operation, nop, load_role, load_connection, load_version, load_flags, load_port, load_str,
  load_bytes, load_duration, connect, begin_build_setup_connection, set_versions, set_flags,
  set_endpoint, set_device_info, end_build_setup_connection, send_setup_connection,
  begin_on_setup_success, end_on_setup_success, send_raw_frame, advance_time, probe, is_block_begin,
  is_block_end, is_nop,
}
use stratamoto.Ir.Instruction.{is_noppable}

-- the operations that open or close a block
pub data IsDelimiter : Operation → Type 0 where
  begins_setup : IsDelimiter begin_build_setup_connection
  ends_setup : (p : Protocol) → IsDelimiter (end_build_setup_connection p)
  begins_on_success : (p : Protocol) → IsDelimiter (begin_on_setup_success p)
  ends_on_success : IsDelimiter end_on_setup_success

-- those that do nothing
pub data IsNothing : Operation → Type 0 where
  nothing : (outputs inner : ℕ) → IsNothing (nop outputs inner)

pub delimited :
    (inputs : List ℕ) (op : Operation)
    → IsDelimiter op
    → is_noppable (record { inputs = inputs; operation = op }) ≡ false
unfolding is_noppable is_block_begin is_block_end
delimited inputs _ begins_setup = refl
delimited inputs _ (ends_setup p) = refl
delimited inputs _ (begins_on_success p) = refl
delimited inputs _ ends_on_success = refl

pub IsNothing-is_nop : (op : Operation) → IsNothing op → is_nop op ≡ true
unfolding is_nop
IsNothing-is_nop _ (nothing outputs inner) = refl

pub hindered :
    (inputs : List ℕ) (op : Operation)
    → (not (is_noppable (record { inputs = inputs; operation = op })) || is_nop op) ≡ true
    → IsDelimiter op ⊎ IsNothing op
unfolding is_noppable is_block_begin is_block_end is_nop
hindered inputs (nop _ _) h = inr (nothing _ _)
hindered inputs (load_role _) h = cc
hindered inputs (load_connection _) h = cc
hindered inputs (load_version _) h = cc
hindered inputs (load_flags _) h = cc
hindered inputs (load_port _) h = cc
hindered inputs (load_str _) h = cc
hindered inputs (load_bytes _) h = cc
hindered inputs (load_duration _) h = cc
hindered inputs connect h = cc
hindered inputs begin_build_setup_connection h = inl begins_setup
hindered inputs set_versions h = cc
hindered inputs set_flags h = cc
hindered inputs set_endpoint h = cc
hindered inputs set_device_info h = cc
hindered inputs (end_build_setup_connection p) h = inl (ends_setup p)
hindered inputs (send_setup_connection _) h = cc
hindered inputs (begin_on_setup_success p) h = inl (begins_on_success p)
hindered inputs end_on_setup_success h = inl ends_on_success
hindered inputs (send_raw_frame _ _) h = cc
hindered inputs advance_time h = cc
hindered inputs probe h = cc
