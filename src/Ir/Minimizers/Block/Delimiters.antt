-- ===== src/Ir/Minimizers/Block/Delimiters.antt =====
-- The operations that open and close the blocks of `BlockMinimizer` in
-- crates/stratamoto-ir/src/minimizers/block.rs.
use stratamoto.Base.{◌≡◌, ◌↔◌, refl, true, false}
use stratamoto.Ir.Variable.{Protocol}
use stratamoto.Ir.Operation.{
  Operation, nop, load_role, load_connection, load_version, load_flags, load_port, load_str,
  load_bytes, load_duration, connect, begin_build_setup_connection, set_versions, set_flags,
  set_endpoint, set_device_info, end_build_setup_connection, send_setup_connection,
  begin_on_setup_success, end_on_setup_success, send_raw_frame, advance_time, probe, is_block_begin,
  is_block_end,
}

-- the operations that open a block
pub data Opens : Operation → Type 0 where
  opens_setup : Opens begin_build_setup_connection
  opens_on_success : (p : Protocol) → Opens (begin_on_setup_success p)

-- the operations that close one
pub data Closes : Operation → Type 0 where
  closes_setup : (p : Protocol) → Closes (end_build_setup_connection p)
  closes_on_success : Closes end_on_setup_success

is_block_begin_of : {op : Operation} → Opens op → is_block_begin op ≡ true
unfolding is_block_begin
is_block_begin_of opens_setup = refl
is_block_begin_of (opens_on_success p) = refl

of_is_block_begin : (op : Operation) → is_block_begin op ≡ true → Opens op
unfolding is_block_begin
of_is_block_begin (nop _ _) h = cc
of_is_block_begin (load_role _) h = cc
of_is_block_begin (load_connection _) h = cc
of_is_block_begin (load_version _) h = cc
of_is_block_begin (load_flags _) h = cc
of_is_block_begin (load_port _) h = cc
of_is_block_begin (load_str _) h = cc
of_is_block_begin (load_bytes _) h = cc
of_is_block_begin (load_duration _) h = cc
of_is_block_begin connect h = cc
of_is_block_begin begin_build_setup_connection h = opens_setup
of_is_block_begin set_versions h = cc
of_is_block_begin set_flags h = cc
of_is_block_begin set_endpoint h = cc
of_is_block_begin set_device_info h = cc
of_is_block_begin (end_build_setup_connection p) h = cc
of_is_block_begin (send_setup_connection _) h = cc
of_is_block_begin (begin_on_setup_success p) h = opens_on_success p
of_is_block_begin end_on_setup_success h = cc
of_is_block_begin (send_raw_frame _ _) h = cc
of_is_block_begin advance_time h = cc
of_is_block_begin probe h = cc

pub is_block_begin-Opens : (op : Operation) → (is_block_begin op ≡ true) ↔ Opens op
is_block_begin-Opens op = (of_is_block_begin op, is_block_begin_of)

is_block_end_of : {op : Operation} → Closes op → is_block_end op ≡ true
unfolding is_block_end
is_block_end_of (closes_setup p) = refl
is_block_end_of closes_on_success = refl

of_is_block_end : (op : Operation) → is_block_end op ≡ true → Closes op
unfolding is_block_end
of_is_block_end (nop _ _) h = cc
of_is_block_end (load_role _) h = cc
of_is_block_end (load_connection _) h = cc
of_is_block_end (load_version _) h = cc
of_is_block_end (load_flags _) h = cc
of_is_block_end (load_port _) h = cc
of_is_block_end (load_str _) h = cc
of_is_block_end (load_bytes _) h = cc
of_is_block_end (load_duration _) h = cc
of_is_block_end connect h = cc
of_is_block_end begin_build_setup_connection h = cc
of_is_block_end set_versions h = cc
of_is_block_end set_flags h = cc
of_is_block_end set_endpoint h = cc
of_is_block_end set_device_info h = cc
of_is_block_end (end_build_setup_connection p) h = closes_setup p
of_is_block_end (send_setup_connection _) h = cc
of_is_block_end (begin_on_setup_success p) h = cc
of_is_block_end end_on_setup_success h = closes_on_success
of_is_block_end (send_raw_frame _ _) h = cc
of_is_block_end advance_time h = cc
of_is_block_end probe h = cc

pub is_block_end-Closes : (op : Operation) → (is_block_end op ≡ true) ↔ Closes op
is_block_end-Closes op = (of_is_block_end op, is_block_end_of)

pub Opens-not-end : (op : Operation) → Opens op → is_block_end op ≡ false
unfolding is_block_end
Opens-not-end _ opens_setup = refl
Opens-not-end _ (opens_on_success p) = refl
