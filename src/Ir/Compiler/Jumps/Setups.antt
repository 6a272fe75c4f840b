-- ===== src/Ir/Compiler/Jumps/Setups.antt =====
-- In what crates/stratamoto-ir/src/compiler.rs makes, the setup of every await action is recorded.
use stratamoto.Base.{
  ℕ, zero, suc, ◌+◌, ◌≡◌, sym, List, [], ◌∷◌, ◌++◌, length, set, some, map_get, ok, IfOk, is_ok,
  IfOk-bind, IfOk-eq_ok, >>=-eq-ok, subst, All, All-append, All-imp,
}
use stratamoto.Ir.Instruction.{Instruction, Program}
use stratamoto.Ir.Spec.{
  SetupConnectionSpec, Action, connect, send, await_setup_response, enter_on_setup_success,
  exit_block, advance_time, probe, CompiledProgram, Wire,
}
use stratamoto.Ir.Compiler.{Compiler, compile_instruction, compile_from, start, compile}
use stratamoto.Ir.Compiler.Jumps.{Known, Moves, appends, opens, closes}
use stratamoto.Ir.Compiler.Jumps.Compiled.{compile_operation-Moves}

-- The setups of all await actions are recorded.
abbrev pub AllKnown : Compiler → Type 0
AllKnown c = All (Known c.metadata.session_setups) c.actions

All-set :
    {A : Type 0} (P : A → Type 0) (xs : List A) (i : ℕ) (v : A)
    → P v
    → All P xs
    → All P (set xs i v)
All-set P [] i v h hs = tt
All-set P (x ∷ xs) zero v h hs = (h, hs.1)
All-set P (x ∷ xs) (suc i) v h hs = (hs.0, All-set P xs i v h hs.1)

Known-imp :
    (m m' : List (ℕ × SetupConnectionSpec))
    → ((i : ℕ) (spec : SetupConnectionSpec)
        → map_get i m ≡ some spec
        → (spec' : SetupConnectionSpec) × (map_get i m' ≡ some spec'))
    → (a : Action) → Known m a
    → Known m' a
Known-imp m m' keeps (await_setup_response _ session _ _) (spec, g) = keeps session spec g
Known-imp m m' keeps (connect _ _) h = tt
Known-imp m m' keeps (send _ _ _ _ _) h = tt
Known-imp m m' keeps (enter_on_setup_success _ _) h = tt
Known-imp m m' keeps exit_block h = tt
Known-imp m m' keeps (advance_time _) h = tt
Known-imp m m' keeps probe h = tt

Moves-AllKnown : {c c' : Compiler} → Moves c c' → AllKnown c → AllKnown c'
Moves-AllKnown {c} {c'} (appends ns none_enters a b k w) h =
    let m = c'.metadata.session_setups in
    subst (All (Known m)) (sym a) (
      All-append (Known m) c.actions ns
        (All-imp (Known c.metadata.session_setups) (Known m) c.actions
          (Known-imp c.metadata.session_setups m k) h)
        w)
Moves-AllKnown {c} {c'} (opens s e a b k) h =
    let m = c'.metadata.session_setups in
    subst (All (Known m)) (sym a) (
      All-append (Known m) c.actions (enter_on_setup_success s e ∷ [])
        (All-imp (Known c.metadata.session_setups) (Known m) c.actions
          (Known-imp c.metadata.session_setups m k) h)
        (tt, tt))
Moves-AllKnown {c} {c'} (closes enter s e b found a k) h =
    let m = c'.metadata.session_setups in
    subst (All (Known m)) (sym a) (
      All-set (Known m) (c.actions ++ exit_block ∷ []) enter
        (enter_on_setup_success s (length c.actions)) tt
        (All-append (Known m) c.actions (exit_block ∷ [])
          (All-imp (Known c.metadata.session_setups) (Known m) c.actions
            (Known-imp c.metadata.session_setups m k) h)
          (tt, tt)))

compile_from-AllKnown :
    (w : Wire) (index : ℕ) (is : List Instruction) (c : Compiler)
    → AllKnown c
    → IfOk AllKnown (compile_from w index is c)
unfolding compile_from compile_instruction
compile_from-AllKnown w index [] c h = is_ok h
compile_from-AllKnown w index (i ∷ is) c h =
    IfOk-bind (compile_operation-Moves w index i.inputs i.operation c)
      λ c' m. compile_from-AllKnown w (index + 1) is c' (Moves-AllKnown m h)

-- When a program compiles, the setup of every await action is recorded.
pub compile-AllKnown :
    (w : Wire) (p : Program) (q : CompiledProgram)
    → compile w p ≡ ok q
    → All (Known q.metadata.session_setups) q.actions
unfolding compile start
compile-AllKnown w p q e =
    let (c, g, r) = >>=-eq-ok (compile_from w 0 p.instructions (start p.context)) _ e in
    let made =
      IfOk-eq_ok AllKnown _ c (compile_from-AllKnown w 0 p.instructions (start p.context) tt) g in
    let actions : c.actions ≡ q.actions =
      (let same : ok (record { context = p.context; actions = c.actions; metadata = c.metadata })
            ≡ ok q =
          r in
        cc) in
    let metadata : c.metadata ≡ q.metadata =
      (let same : ok (record { context = p.context; actions = c.actions; metadata = c.metadata })
            ≡ ok q =
          r in
        cc) in
    subst (λ m. All (Known m.session_setups) q.actions) metadata
      (subst (All (Known c.metadata.session_setups)) actions made)
