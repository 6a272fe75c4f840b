-- ===== src/Ir/Compiler/Jumps/Compiled.antt =====
-- In what crates/stratamoto-ir/src/compiler.rs makes of a statically valid program, every block is closed.
use stratamoto.Base.{
  ℕ, ◌+◌, ◌≡◌, ◌≢◌, refl, true, List, [], ◌∷◌, get_elem?, some, inl, inr, ok, err, panic, IfOk,
  is_ok, IfOk-bind, IfOk-eq_ok, >>=-eq-ok, subst,
}
use stratamoto.Ir.Operation.{
  Operation, nop, set_versions, set_flags, set_endpoint, set_device_info,
  end_build_setup_connection, send_setup_connection, begin_on_setup_success, end_on_setup_success,
  send_raw_frame,
}
use stratamoto.Ir.Instruction.{
  Instruction, InstructionContext, global, build_setup_connection, on_setup_success, Program,
}
use stratamoto.Ir.Spec.{Action, enter_on_setup_success, CompiledProgram, Wire, WireLaws}
use stratamoto.Ir.Builder.{Scope, new, from_prefix, is_statically_valid}
use stratamoto.Ir.Builder.Facts.{ScopesOk, bottom, nested}
use stratamoto.Ir.Builder.Invariant.{new-IsBuilt}
use stratamoto.Ir.Builder.Faults.{valid-builder}
use stratamoto.Ir.Compiler.{
  Compiler, Compiled, push_value, compile_operation, compile_instruction, compile_from, start,
  compile,
}
use stratamoto.Ir.Compiler.Types.{Sound, gives}
use stratamoto.Ir.Compiler.Blocks.{BlocksMatch}
use stratamoto.Ir.Compiler.Turns.{contexts}
use stratamoto.Ir.Compiler.Validated.{InStep, compile_from-InStep}
use stratamoto.Ir.Compiler.Jumps.{Jumps, Closed, Moves, Moves-Jumps}
use stratamoto.Ir.Compiler.Jumps.Arms

pub compile_operation-Moves :
    (w : Wire) (index : ℕ) (inputs : List ℕ) (op : Operation) (c : Compiler)
    → IfOk (Moves c) (compile_operation w index inputs op c)
unfolding compile_operation push_value
compile_operation-Moves w index inputs (nop n m) c = is_ok (Arms.stays c _ refl refl refl)
compile_operation-Moves w index inputs Operation.connect c = Arms.connect-Moves c index inputs
compile_operation-Moves w index inputs set_versions c = Arms.set_versions-Moves c index inputs
compile_operation-Moves w index inputs set_flags c = Arms.set_flags-Moves c index inputs
compile_operation-Moves w index inputs set_endpoint c = Arms.set_endpoint-Moves c index inputs
compile_operation-Moves w index inputs set_device_info c = Arms.set_device_info-Moves c index inputs
compile_operation-Moves w index inputs (end_build_setup_connection p) c =
    Arms.end_build-Moves c index inputs p
compile_operation-Moves w index inputs (send_setup_connection p) c =
    Arms.send_setup-Moves c index inputs w p
compile_operation-Moves w index inputs (begin_on_setup_success p) c =
    Arms.begin_success-Moves c index inputs
compile_operation-Moves w index inputs end_on_setup_success c =
    Arms.end_success-Moves c index inputs
compile_operation-Moves w index inputs (send_raw_frame m x) c =
    Arms.send_raw-Moves c index inputs m x
compile_operation-Moves w index inputs Operation.advance_time c =
    Arms.advance_time-Moves c index inputs
compile_operation-Moves w index inputs Operation.probe c = is_ok (Arms.probe-Moves c index inputs)
compile_operation-Moves w index inputs _ c = is_ok (Arms.stays c _ refl refl refl)

compile_from-Jumps :
    (w : Wire) (index : ℕ) (is : List Instruction) (c : Compiler)
    → Jumps c.actions c.blocks
    → IfOk (λ c'. Jumps c'.actions c'.blocks) (compile_from w index is c)
unfolding compile_from compile_instruction
compile_from-Jumps w index [] c h = is_ok h
compile_from-Jumps w index (i ∷ is) c h =
    IfOk-bind (compile_operation-Moves w index i.inputs i.operation c)
      λ c' m. compile_from-Jumps w (index + 1) is c' (Moves-Jumps m h)

Sound-eq_ok : {A : Type 0} (P : A → Type 0) (r : Compiled A) (a : A) → Sound P r → r ≡ ok a → P a
Sound-eq_ok P (ok b) a (gives h) e = let same : b ≡ a = cc in subst P same h
Sound-eq_ok P (err x) a s e = cc
Sound-eq_ok P panic a s e = cc

blocks_below_global :
    (actions : List Action) (context : InstructionContext) (blocks : List ℕ)
    → context ≡ global
    → BlocksMatch actions (context ∷ []) blocks
    → blocks ≡ []
blocks_below_global actions global [] e m = refl
blocks_below_global actions global (b ∷ blocks) e m = absurd m
blocks_below_global actions build_setup_connection blocks e m = cc
blocks_below_global actions on_setup_success blocks e m = cc

ScopesOk-ne-nil : {is : List Instruction} {n : ℕ} {ss : List Scope} → ScopesOk is n ss → ss ≢ []
ScopesOk-ne-nil (bottom s e c i l) q = cc
ScopesOk-ne-nil (nested s m o l u r) q = cc

-- At the global scope no success block is open.
none_open :
    (actions : List Action) {is : List Instruction} {n : ℕ} {scopes : List Scope} (blocks : List ℕ)
    → ScopesOk is n scopes
    → (s : Scope) → scopes ≡ s ∷ []
    → BlocksMatch actions (contexts scopes) blocks
    → blocks ≡ []
none_open actions blocks (bottom t e c i l) s q m = blocks_below_global actions t.context blocks c m
none_open actions blocks (nested t {rest} m o l u r) s q match =
    absurd (ScopesOk-ne-nil r (let last : rest ≡ [] = cc in last))

-- Every enter action points to an exit after it.
abbrev pub AllClosed : List Action → Type 0
AllClosed actions =
    (k s e : ℕ) → get_elem? actions k ≡ some (enter_on_setup_success s e) → Closed actions k e

-- When a statically valid program compiles, every enter action points to an exit after it.
pub compile-Closed :
    (w : Wire) (p : Program) (q : CompiledProgram)
    → WireLaws w
    → is_statically_valid p ≡ some true
    → compile w p ≡ ok q
    → AllClosed q.actions
unfolding compile start from_prefix new
compile-Closed w p q laws h e =
    let (b, f, built, global_scope) = valid-builder p h in
    let (c, g, r) = >>=-eq-ok (compile_from w 0 p.instructions (start p.context)) _ e in
    let start_jumps : Jumps (start p.context).actions (start p.context).blocks = λ k s e g. cc in
    let jumps =
      IfOk-eq_ok (λ (x : Compiler). Jumps x.actions x.blocks) _ c
        (compile_from-Jumps w 0 p.instructions (start p.context) start_jumps) g in
    let step =
      Sound-eq_ok (InStep b) _ c
        (compile_from-InStep w 0 p.instructions (new p.context) (start p.context) laws
          (new-IsBuilt p.context) f (record { typed = tt; blocks = tt }))
        g in
    let none_left =
      none_open c.actions c.blocks built.scopes global_scope.0 global_scope.1 step.blocks in
    let same : c.actions ≡ q.actions =
      (let made : ok (record { context = p.context; actions = c.actions; metadata = c.metadata })
            ≡ ok q =
          r in
        cc) in
    let closed = subst (Jumps c.actions) none_left jumps in
    subst AllClosed same (λ k s x at. elim (closed k s x at) [ inl y ↦ y | inr none ↦ absurd none ])
