-- ===== src/Harness/Tests/Deployments.antt =====
-- A deployment whose frames are a list, and a compiled program, for the tests of the harness.
use stratamoto.Base.{
  ℕ, suc, ◌≡◌, refl, ap, true, false, List, [], ◌∷◌, length, some, inl, inr, ok, arith, contains,
  ◌⊎◌, ◌<◌,
}
use stratamoto.Ir.Spec.{CompiledProgram}
use stratamoto.Ir.Compiler.{
  push_action, push_value, note, value, input, as_role, as_connection, as_version, as_setup,
  as_attempt, read, edit_setup, str0_255, encode, wire_protocol, encode_setup_connection,
  send_setup, compile_connect, begin_success, patch_enter, end_success, compile_set_versions,
  end_build, compile_operation, compile_instruction, compile_from, extend_below, start, compile,
}
use stratamoto.Ir.Tests.Programs.{setup_program, setup_program_valid, plain_wire}
use stratamoto.Harness.Errors.{Error, timeout}
use stratamoto.Harness.Frames.{Frame, setup_connection_success}
use stratamoto.Harness.Environment.{Deployment, DeploymentLaws, mining_protocol, new_role_config}
use stratamoto.Harness.Scenario.{TestCase, from_valid, from_program, map_err}

-- the frames that have not been received
abbrev pub Frames : Type 0
Frames = List Frame

abbrev pub take_frame : Frames → (Error ⊎ Frame) × Frames
take_frame [] = (inl timeout, [])
take_frame (f ∷ fs) = (inr f, fs)

abbrev pub one_pool : Deployment Frames ℕ
one_pool = record {
  connect = λ c role e. (some c, e);
  role_config = λ role. some (new_role_config mining_protocol);
  num_roles = 1;
  advance_time = λ d e. e;
  is_alive = λ e. true;
  send = λ l x m b payload e. (inr tt, e);
  recv = λ l wait e. take_frame e;
  now = λ e. (0, e);
}

-- the answer of a pool to a setup
abbrev pub setup_answer : Frame
setup_answer = record {
  header = record {
    ext_type_without_channel_msg = 0;
    channel_msg = false;
    msg_type = 1;
    payload_length = 6;
  };
  message = inr (record { channel_bit = false; body = setup_connection_success 2 0 });
}

take_frame-takes : (e e' : Frames) (f : Frame) → take_frame e ≡ (inr f, e') → length e' < length e
take_frame-takes [] e' f h = cc
take_frame-takes (g ∷ e) e' f h =
    let same : e ≡ e' = cc in let counted : length e ≡ length e' = ap length same in omega arith

pub one_pool_laws : DeploymentLaws one_pool
one_pool_laws = record {
  to_come = λ e. length e;
  recv_takes = λ l wait e e' f h. take_frame-takes e e' f h;
  now_keeps = λ e. omega arith;
}

abbrev pub frame_budget : Frames → ℕ
frame_budget e = suc (length e)

pub frame_budget_enough : (e : Frames) → one_pool_laws.to_come e < frame_budget e
unfolding one_pool_laws
frame_budget_enough e = omega arith

pub setup_compiled : (q : CompiledProgram) × (compile plain_wire setup_program ≡ ok q)
unfolding push_action push_value note value input as_role as_connection as_version as_setup
    as_attempt read edit_setup str0_255 encode wire_protocol encode_setup_connection send_setup
    compile_connect begin_success patch_enter end_success compile_set_versions end_build
    compile_operation compile_instruction compile_from extend_below start compile contains
setup_compiled = (_, refl)

pub setup_made : (t : TestCase) × (from_program plain_wire setup_program ≡ ok t)
unfolding from_program from_valid map_err
setup_made =
    (record { program = setup_compiled.0 }, rw (setup_program_valid, setup_compiled.1) refl)
