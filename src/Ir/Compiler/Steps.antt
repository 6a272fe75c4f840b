-- ===== src/Ir/Compiler/Steps.antt =====
-- Each arm of `compile_instruction` in crates/stratamoto-ir/src/compiler.rs keeps the compiler's values and
-- open blocks in step with the types and scopes of the builder.
use Prim.Native.Nat.add
use stratamoto.Base.{
  ℕ, zero, suc, ◌+◌, ◌≡◌, refl, List, [], ◌∷◌, ◌++◌, replicate, get_elem?, length, Option, none,
  some, ok, err, subst, inl, inr, ◌⊎◌, get_elem?-append_mid, >>=-ok,
}
use stratamoto.Ir.Variable.{Variable, Protocol}
use stratamoto.Ir.Instruction.{InstructionContext, on_setup_success}
use stratamoto.Ir.Spec.{
  SetupConnectionSpec, Action, enter_on_setup_success, exit_block, ClientViolation, SetupConnection,
  string_too_long, encoding, Wire, WireLaws, max_action_id,
}
use stratamoto.Ir.Compiler.{
  Value, Compiler, Compiled, push_action, push_value, note, input, edit_setup, str0_255, encode,
  wire_protocol, encode_setup_connection, send_setup, compile_connect, begin_success, patch_enter,
  end_success_of, end_success, send_raw, compile_set_versions, compile_set_flags,
  compile_set_endpoint, compile_set_device_info, end_build, compile_advance_time,
}
use stratamoto.Ir.Compiler.Types.{
  HasType, Typed, Typed-append, Sound, gives, too_long, not_encoded, Sound-bind, Inputs, read-Sound,
  edit_setup-Sound, reads_role, reads_connection, reads_version, reads_flags, reads_port,
  reads_string, reads_bytes, reads_duration, reads_attempt, reads_setup, reads_final_setup,
}
use stratamoto.Ir.Compiler.Blocks.{BlocksMatch, BlocksMatch-imp, EntersAt-append, EntersAt-set}

-- The compiler is in step with variables of types `ts` and open scopes of contexts `cs`.
pub record Ready (ts : List Variable) (cs : List InstructionContext) (c : Compiler) : Type 0 where
  pub typed : Typed c.values ts
  pub blocks : BlocksMatch c.actions cs c.blocks

pub Ready-push_value :
    {ts : List Variable} {cs : List InstructionContext} (c : Compiler) (v : Value) (t : Variable)
    → Ready ts cs c
    → HasType v t
    → Ready (ts ++ t ∷ []) cs (push_value v c)
unfolding push_value
Ready-push_value {ts} c v t h k = record {
  typed = Typed-append c.values ts (v ∷ []) (t ∷ []) h.typed (k, tt);
  blocks = h.blocks;
}

pub Ready-push_action :
    {ts : List Variable} {cs : List InstructionContext} (c : Compiler) (index : ℕ) (a : Action)
    → Ready ts cs c
    → Ready ts cs (push_action index a c)
unfolding push_action
Ready-push_action {cs} c index a h = record {
  typed = h.typed;
  blocks =
      BlocksMatch-imp c.actions (c.actions ++ a ∷ []) (EntersAt-append c.actions (a ∷ [])) cs
        c.blocks h.blocks;
}

pub Ready-note :
    {ts : List Variable} {cs : List InstructionContext} (c : Compiler) (action : ℕ)
    (vs : List ClientViolation)
    → Ready ts cs c
    → Ready ts cs (note action vs c)
unfolding note
Ready-note c action [] h = h
Ready-note c action (v ∷ vs) h = record { typed = h.typed; blocks = h.blocks }

pub Typed-nops :
    (n m : ℕ)
    → Typed (replicate (n + m) Value.nop) (replicate n Variable.nop ++ replicate m Variable.nop)
Typed-nops zero m = simp add.zero (all_nops m)
  where
    all_nops : (m : ℕ) → Typed (replicate m Value.nop) (replicate m Variable.nop)
    all_nops zero = tt
    all_nops (suc m) = (tt, all_nops m)
Typed-nops (suc n) m = simp add.suc (tt, Typed-nops n m)

str0_255-Sound :
    (w : Wire) (variable : ℕ) (s : List ℕ)
    → Sound (λ (_ : List ℕ). Unit {0}) (str0_255 w variable s)
unfolding str0_255
str0_255-Sound w variable s =
    elim (w.to_str0_255 s)
      as (λ (o : Option (List ℕ)).
        Sound (λ (_ : List ℕ). Unit {0})
          (elim o as (λ _. Compiled (List ℕ)) [
            | none ↦ err (string_too_long variable)
            | some t ↦ ok t
          ])) [ none ↦ too_long | some t ↦ gives tt ]

encode-Sound : (w : Wire) (m : SetupConnection) → Sound (λ (_ : List ℕ). Unit {0}) (encode w m)
unfolding encode
encode-Sound w m =
    elim (w.to_writer m)
      as (λ (o : List ℕ ⊎ List ℕ).
        Sound (λ (_ : List ℕ). Unit {0})
          (elim o as (λ _. Compiled (List ℕ)) [ inl e ↦ err (encoding e) | inr p ↦ ok p ])) [
            | inl e ↦ not_encoded
            | inr p ↦ gives tt
          ]

encode_setup_connection-Sound :
    (w : Wire) (spec : SetupConnectionSpec) (variable : ℕ)
    → WireLaws w
    → Sound (λ (_ : List ℕ). Unit {0}) (encode_setup_connection w spec variable)
unfolding encode_setup_connection wire_protocol
encode_setup_connection-Sound w spec variable laws =
    let (k, e) = laws.knows_protocols spec.protocol in
    rw (e, wire_protocol)
      (Sound-bind (str0_255-Sound w variable spec.endpoint_host) λ _ _.
        Sound-bind (str0_255-Sound w variable spec.vendor) λ _ _.
          Sound-bind (str0_255-Sound w variable spec.hardware_version) λ _ _.
            Sound-bind (str0_255-Sound w variable spec.firmware)
              λ _ _. Sound-bind (str0_255-Sound w variable spec.device_id) λ _ _. encode-Sound w _)

module _ (index : ℕ) (c : Compiler) (ts : List Variable) (cs : List InstructionContext)
    (h : Ready ts cs c) where
  pub connect-Ready :
      (inputs : List ℕ)
      → Inputs ts inputs (Variable.role ∷ [])
      → Sound (Ready (ts ++ Variable.connection ∷ []) cs) (compile_connect index inputs c)
  unfolding compile_connect
  connect-Ready [] r = absurd r
  connect-Ready (i ∷ is) (r, _) =
      Sound-bind (read-Sound reads_role c ts (i ∷ is) 0 h.typed refl r) λ role_id _. gives (
        Ready-push_action _ index _ (
          Ready-push_value _ _ Variable.connection (record { typed = h.typed; blocks = h.blocks })
            tt))

  pub begin_success-Ready :
      (inputs : List ℕ) (p : Protocol)
      → Inputs ts inputs (Variable.setup_attempt p ∷ [])
      → Sound
          (Ready (ts ++ Variable.session p ∷ []) (on_setup_success ∷ cs))
          (begin_success index inputs c)
  unfolding begin_success push_action
  begin_success-Ready [] p r = absurd r
  begin_success-Ready (i ∷ is) p (r, _) =
      Sound-bind (read-Sound (reads_attempt p) c ts (i ∷ is) 0 h.typed refl r) λ attempt _. gives (
        Ready-push_value _ Value.session (Variable.session p)
          (record {
            typed = h.typed;
            blocks = (
              record {
                session = attempt.0;
                end = max_action_id;
                found = get_elem?-append_mid c.actions [] _;
              },
              (Ready-push_action c index (enter_on_setup_success attempt.0 max_action_id) h).blocks,
            );
          })
          tt)

  pub send_raw-Ready :
      (inputs : List ℕ) (message_type extension_type : ℕ)
      → Inputs ts inputs (Variable.connection ∷ Variable.bytes ∷ [])
      → Sound (Ready ts cs) (send_raw index inputs message_type extension_type c)
  unfolding send_raw
  send_raw-Ready [] m e r = absurd r
  send_raw-Ready (i ∷ []) m e (_, r) = absurd r
  send_raw-Ready (i ∷ (j ∷ is)) m e (r, (r', _)) =
      Sound-bind (read-Sound reads_connection c ts _ 0 h.typed refl r) λ link _.
        Sound-bind (read-Sound reads_bytes c ts _ 1 h.typed refl r') λ payload _.
          gives (Ready-push_action _ index _ (record { typed = h.typed; blocks = h.blocks }))

  pub advance_time-Ready :
      (inputs : List ℕ)
      → Inputs ts inputs (Variable.duration ∷ [])
      → Sound (Ready ts cs) (compile_advance_time index inputs c)
  unfolding compile_advance_time
  advance_time-Ready [] r = absurd r
  advance_time-Ready (i ∷ is) (r, _) =
      Sound-bind (read-Sound reads_duration c ts _ 0 h.typed refl r)
        λ time _. gives (Ready-push_action c index _ h)

  pub end_build-Ready :
      (inputs : List ℕ) (p : Protocol)
      → Inputs ts inputs (Variable.mut_setup_connection ∷ [])
      → Sound (Ready (ts ++ Variable.const_setup_connection p ∷ []) cs) (end_build inputs p c)
  unfolding end_build
  end_build-Ready [] p r = absurd r
  end_build-Ready (i ∷ is) p (r, _) =
      Sound-bind (read-Sound reads_setup c ts _ 0 h.typed refl r)
        λ spec _. gives (Ready-push_value c _ (Variable.const_setup_connection p) h refl)

  -- An edit of the message leaves the compiler in step.
  pub edit-Ready :
      (edit : SetupConnectionSpec → SetupConnectionSpec) (i : ℕ) (is : List ℕ)
      → get_elem? ts i ≡ some Variable.mut_setup_connection
      → Sound (Ready ts cs) (edit_setup edit c (i ∷ is))
  edit-Ready edit i is r = subst (Sound (Ready ts cs)) (>>=-ok (edit_setup edit c (i ∷ is))) (
      Sound-bind (edit_setup-Sound edit c ts (i ∷ is) h.typed refl r) λ c' (typed, actions, blocks).
        gives (record { typed = typed; blocks = rw (actions, blocks) h.blocks }))

  pub set_versions-Ready :
      (inputs : List ℕ)
      → Inputs ts inputs (Variable.mut_setup_connection ∷ Variable.version ∷ Variable.version ∷ [])
      → Sound (Ready ts cs) (compile_set_versions inputs c)
  unfolding compile_set_versions
  set_versions-Ready [] r = absurd r
  set_versions-Ready (i ∷ []) (_, r) = absurd r
  set_versions-Ready (i ∷ (j ∷ [])) (_, (_, r)) = absurd r
  set_versions-Ready (i ∷ (j ∷ (k ∷ is))) (r, (r₁, (r₂, _))) =
      Sound-bind (read-Sound reads_version c ts _ 1 h.typed refl r₁) λ _ _.
        Sound-bind (read-Sound reads_version c ts _ 2 h.typed refl r₂) λ _ _. edit-Ready _ i _ r

  pub set_flags-Ready :
      (inputs : List ℕ)
      → Inputs ts inputs (Variable.mut_setup_connection ∷ Variable.flags ∷ [])
      → Sound (Ready ts cs) (compile_set_flags inputs c)
  unfolding compile_set_flags
  set_flags-Ready [] r = absurd r
  set_flags-Ready (i ∷ []) (_, r) = absurd r
  set_flags-Ready (i ∷ (j ∷ is)) (r, (r₁, _)) =
      Sound-bind (read-Sound reads_flags c ts _ 1 h.typed refl r₁) λ _ _. edit-Ready _ i _ r

  pub set_endpoint-Ready :
      (inputs : List ℕ)
      → Inputs ts inputs (Variable.mut_setup_connection ∷ Variable.str ∷ Variable.port ∷ [])
      → Sound (Ready ts cs) (compile_set_endpoint inputs c)
  unfolding compile_set_endpoint
  set_endpoint-Ready [] r = absurd r
  set_endpoint-Ready (i ∷ []) (_, r) = absurd r
  set_endpoint-Ready (i ∷ (j ∷ [])) (_, (_, r)) = absurd r
  set_endpoint-Ready (i ∷ (j ∷ (k ∷ is))) (r, (r₁, (r₂, _))) =
      Sound-bind (read-Sound reads_string c ts _ 1 h.typed refl r₁)
        λ _ _. Sound-bind (read-Sound reads_port c ts _ 2 h.typed refl r₂) λ _ _. edit-Ready _ i _ r

  pub set_device_info-Ready :
      (inputs : List ℕ)
      → Inputs ts inputs (
          Variable.mut_setup_connection ∷ Variable.str ∷ Variable.str ∷ Variable.str ∷ Variable.str
          ∷ [])
      → Sound (Ready ts cs) (compile_set_device_info inputs c)
  unfolding compile_set_device_info
  set_device_info-Ready [] r = absurd r
  set_device_info-Ready (i ∷ []) (_, r) = absurd r
  set_device_info-Ready (i ∷ (j ∷ [])) (_, (_, r)) = absurd r
  set_device_info-Ready (i ∷ (j ∷ (k ∷ []))) (_, (_, (_, r))) = absurd r
  set_device_info-Ready (i ∷ (j ∷ (k ∷ (l ∷ [])))) (_, (_, (_, (_, r)))) = absurd r
  set_device_info-Ready (i ∷ (j ∷ (k ∷ (l ∷ (m ∷ is))))) (r, (r₁, (r₂, (r₃, (r₄, _))))) =
      Sound-bind (read-Sound reads_string c ts _ 1 h.typed refl r₁) λ _ _.
        Sound-bind (read-Sound reads_string c ts _ 2 h.typed refl r₂) λ _ _.
          Sound-bind (read-Sound reads_string c ts _ 3 h.typed refl r₃) λ _ _.
            Sound-bind (read-Sound reads_string c ts _ 4 h.typed refl r₄) λ _ _. edit-Ready _ i _ r

  pub send_setup-Ready :
      (w : Wire) (inputs : List ℕ) (p : Protocol)
      → WireLaws w
      → Inputs ts inputs (Variable.connection ∷ Variable.const_setup_connection p ∷ [])
      → Sound (Ready (ts ++ Variable.setup_attempt p ∷ []) cs) (send_setup w index inputs p c)
  unfolding send_setup input
  send_setup-Ready w [] p laws r = absurd r
  send_setup-Ready w (i ∷ []) p laws (_, r) = absurd r
  send_setup-Ready w (i ∷ (j ∷ is)) p laws (r, (r₁, _)) =
      Sound-bind (read-Sound reads_connection c ts _ 0 h.typed refl r) λ link _.
        Sound-bind (read-Sound (reads_final_setup p) _ ts _ 1 h.typed refl r₁) λ spec _.
          Sound-bind (encode_setup_connection-Sound w spec j laws) λ payload _. gives (
            Ready-note _ _ _ (
              Ready-push_action _ index _ (
                Ready-push_action _ index _ (
                  Ready-push_value _ _ (Variable.setup_attempt p)
                    (record { typed = h.typed; blocks = h.blocks }) tt))))

module _ (index : ℕ) (c : Compiler) (ts : List Variable) (cs : List InstructionContext)
    (h : Ready ts (on_setup_success ∷ cs) c) where
  pub end_success_of-Ready :
      (blocks : List ℕ)
      → BlocksMatch c.actions (on_setup_success ∷ cs) blocks
      → Sound (Ready ts cs) (end_success_of blocks index c)
  unfolding end_success_of patch_enter push_action
  end_success_of-Ready [] m = absurd m
  end_success_of-Ready (enter ∷ blocks) (e, m) =
      let grown = EntersAt-append c.actions (exit_block ∷ []) enter e in
      rw (grown.found, patch_enter)
        (gives (record {
          typed = h.typed;
          blocks =
              BlocksMatch-imp c.actions _
                (λ k at.
                  EntersAt-set (c.actions ++ exit_block ∷ []) enter grown.session (length c.actions)
                    k (EntersAt-append c.actions (exit_block ∷ []) k at))
                cs blocks m;
        }))

  pub end_success-Ready : Sound (Ready ts cs) (end_success index c)
  unfolding end_success
  end_success-Ready = end_success_of-Ready c.blocks h.blocks
