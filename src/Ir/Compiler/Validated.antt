-- ===== src/Ir/Compiler/Validated.antt =====
-- Compiling what crates/stratamoto-ir/src/builder.rs accepts, with crates/stratamoto-ir/src/compiler.rs.
use stratamoto.Base.{
  ℕ, ◌+◌, ◌≡◌, refl, sym, true, List, [], ◌∷◌, ◌++◌, append-nil, some, ok, >>=-eq-ok, subst,
}
use stratamoto.Ir.Variable.{Variable}
use stratamoto.Ir.Operation.{
  Operation, nop, load_role, load_connection, load_version, load_flags, load_port, load_str,
  load_bytes, load_duration, begin_build_setup_connection, set_versions, set_flags, set_endpoint,
  set_device_info, end_build_setup_connection, send_setup_connection, begin_on_setup_success,
  end_on_setup_success, send_raw_frame, get_output_variables, get_inner_output_variables,
  get_input_variables,
}
use stratamoto.Ir.Instruction.{Instruction, InstructionContext, Program}
use stratamoto.Ir.Spec.{CompiledProgram, Wire, WireLaws, default_setup}
use stratamoto.Ir.Builder.{
  ProgramBuilder, append_kept, append_all, from_prefix, new, is_statically_valid,
}
use stratamoto.Ir.Builder.Invariant.{IsBuilt, new-IsBuilt}
use stratamoto.Ir.Builder.Append.{Appended}
use stratamoto.Ir.Builder.Validity.{append_kept-eq-ok}
use stratamoto.Ir.Builder.Faults.{valid-builder}
use stratamoto.Ir.Compiler.{
  Value, Compiler, Compiled, push_value, compile_operation, compile_instruction, compile_from,
  start, compile,
}
use stratamoto.Ir.Compiler.Types.{
  HasType, Typed-append, Sound, gives, Sound-bind, Inputs, Resolved-Inputs, types_of,
}
use stratamoto.Ir.Compiler.Blocks.{Turns}
use stratamoto.Ir.Compiler.Steps
use stratamoto.Ir.Compiler.Steps.{Ready}
use stratamoto.Ir.Compiler.Turns.{contexts, Appended-Turns, Appended-types}

module _ (w : Wire) (laws : WireLaws w) (index : ℕ) (c : Compiler) (ts : List Variable)
    (cs cs' : List InstructionContext) (h : Ready ts cs c) where
  abbrev After : List ℕ → Operation → Type 0
  After inputs op =
      Sound (Ready (ts ++ (get_output_variables op ++ get_inner_output_variables op)) cs')
        (compile_operation w index inputs op c)

  -- the operations that only push a value
  pushes_value :
      (v : Value) (t : Variable)
      → HasType v t
      → cs' ≡ cs
      → Ready (ts ++ t ∷ []) cs' (push_value v c)
  pushes_value v t k e = rw e (Steps.Ready-push_value c v t h k)

  -- what declares no variable
  declares_none :
      {r : Compiled Compiler} → cs' ≡ cs → Sound (Ready ts cs) r → Sound (Ready (ts ++ []) cs') r
  declares_none {r} e s = rw (append-nil, e) s

  -- Every arm of `compile_instruction`, on inputs of the operation's types, keeps the compiler in step.
  compile_operation-Ready :
      (inputs : List ℕ) (op : Operation)
      → Inputs ts inputs (get_input_variables op)
      → Turns op cs cs'
      → After inputs op
  unfolding compile_operation get_output_variables get_inner_output_variables get_input_variables
  compile_operation-Ready inputs (nop n m) r e = gives (record {
    typed = Typed-append c.values ts _ _ h.typed (Steps.Typed-nops n m);
    blocks = rw e h.blocks;
  })
  compile_operation-Ready inputs (load_role i) r e = gives (pushes_value _ Variable.role tt e)
  compile_operation-Ready inputs (load_connection i) r e =
      gives (pushes_value _ Variable.connection tt e)
  compile_operation-Ready inputs (load_version v) r e = gives (pushes_value _ Variable.version tt e)
  compile_operation-Ready inputs (load_flags v) r e = gives (pushes_value _ Variable.flags tt e)
  compile_operation-Ready inputs (load_port v) r e = gives (pushes_value _ Variable.port tt e)
  compile_operation-Ready inputs (load_str v) r e = gives (pushes_value _ Variable.str tt e)
  compile_operation-Ready inputs (load_bytes v) r e = gives (pushes_value _ Variable.bytes tt e)
  compile_operation-Ready inputs (load_duration v) r e =
      gives (pushes_value _ Variable.duration tt e)
  compile_operation-Ready inputs Operation.connect r e =
      rw e (Steps.connect-Ready index c ts cs h inputs r)
  compile_operation-Ready inputs begin_build_setup_connection r e = gives (
      Steps.Ready-push_value c (Value.setup_connection default_setup) Variable.mut_setup_connection
        (record { typed = h.typed; blocks = rw e h.blocks }) tt)
  compile_operation-Ready inputs set_versions r e =
      declares_none e (Steps.set_versions-Ready index c ts cs h inputs r)
  compile_operation-Ready inputs set_flags r e =
      declares_none e (Steps.set_flags-Ready index c ts cs h inputs r)
  compile_operation-Ready inputs set_endpoint r e =
      declares_none e (Steps.set_endpoint-Ready index c ts cs h inputs r)
  compile_operation-Ready inputs set_device_info r e =
      declares_none e (Steps.set_device_info-Ready index c ts cs h inputs r)
  compile_operation-Ready inputs (end_build_setup_connection p) r e =
      Steps.end_build-Ready index c ts cs' (record { typed = h.typed; blocks = rw e at h.blocks })
        inputs p r
  compile_operation-Ready inputs (send_setup_connection p) r e =
      rw e (Steps.send_setup-Ready index c ts cs h w inputs p laws r)
  compile_operation-Ready inputs (begin_on_setup_success p) r e =
      rw e (Steps.begin_success-Ready index c ts cs h inputs p r)
  compile_operation-Ready inputs end_on_setup_success r e = rw append-nil (
      Steps.end_success-Ready index c ts cs'
        (record { typed = h.typed; blocks = rw e at h.blocks }))
  compile_operation-Ready inputs (send_raw_frame m x) r e =
      declares_none e (Steps.send_raw-Ready index c ts cs h inputs m x r)
  compile_operation-Ready inputs Operation.advance_time r e =
      declares_none e (Steps.advance_time-Ready index c ts cs h inputs r)
  compile_operation-Ready inputs Operation.probe r e =
      declares_none e (gives (Steps.Ready-push_action c index _ h))

-- The compiler is in step with a builder.
abbrev pub InStep : ProgramBuilder → Compiler → Type 0
InStep b c = Ready (types_of b) (contexts b.active_scopes) c

-- An instruction that the builder accepts is compiled, and the two stay in step.
pub compile_instruction-InStep :
    (w : Wire) (index : ℕ) (i : Instruction) (b b' : ProgramBuilder) (c : Compiler)
    → WireLaws w
    → Appended i b b'
    → InStep b c
    → Sound (InStep b') (compile_instruction w index i c)
unfolding compile_instruction
compile_instruction-InStep w index i b b' c laws a h =
    subst
      (λ ts.
        Sound (Ready ts (contexts b'.active_scopes))
          (compile_operation w index i.inputs i.operation c))
      (sym (Appended-types a))
      (compile_operation-Ready w laws index c (types_of b) (contexts b.active_scopes)
        (contexts b'.active_scopes) h i.inputs i.operation
        (Resolved-Inputs b i.inputs (get_input_variables i.operation) a.fits.resolved)
        (Appended-Turns a))

pub compile_from-InStep :
    (w : Wire) (index : ℕ) (is : List Instruction) (b : ProgramBuilder) {b' : ProgramBuilder}
    (c : Compiler)
    → WireLaws w
    → IsBuilt b
    → append_all is b ≡ ok b'
    → InStep b c
    → Sound (InStep b') (compile_from w index is c)
unfolding compile_from append_all
compile_from-InStep w index [] b {b'} c laws built e h =
    let same : b ≡ b' = cc in gives (subst (λ (x : ProgramBuilder). InStep x c) same h)
compile_from-InStep w index (i ∷ is) b c laws built e h =
    let (mid, k, rest) = >>=-eq-ok (append_kept i b) (append_all is) e in
    let a = append_kept-eq-ok i b built k in
    Sound-bind (compile_instruction-InStep w index i b mid c laws a h)
      λ c' h'. compile_from-InStep w (index + 1) is mid c' laws a.pushed.built rest h'

-- A statically valid program compiles, or fails because a text is longer than 255 bytes or the wire
-- library refuses the message. It never fails on a missing value, a value of the wrong type or an
-- unbalanced block, and never panics.
pub compile-Sound :
    (w : Wire) (p : Program)
    → WireLaws w
    → is_statically_valid p ≡ some true
    → Sound (λ (q : CompiledProgram). q.context ≡ p.context) (compile w p)
unfolding compile start from_prefix new
compile-Sound w p laws h =
    let (b, f, built, global) = valid-builder p h in
    Sound-bind
      (compile_from-InStep w 0 p.instructions (new p.context) (start p.context) laws
        (new-IsBuilt p.context) f (record { typed = tt; blocks = tt }))
      λ c _. gives refl
