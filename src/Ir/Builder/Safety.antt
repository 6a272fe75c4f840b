-- ===== src/Ir/Builder/Safety.antt =====
-- When `ProgramBuilder::append` of crates/stratamoto-ir/src/builder.rs panics, and what it leaves.
use stratamoto.Base.{
  ℕ, ◌≡◌, ◌≢◌, ◌↔◌, refl, ap, sym, ◌∙◌, true, List, [], ◌∷◌, some, none, arith, contains, ok, err,
  panic, All-get_elem?,
}
use stratamoto.Ir.Variable.{Variable}
use stratamoto.Ir.Operation.{
  Operation, end_build_setup_connection, end_on_setup_success, is_block_end, get_input_variables,
  num_inputs,
}
use stratamoto.Ir.Errors.{check_input_types}
use stratamoto.Ir.Instruction.{Instruction}
use stratamoto.Ir.Builder.{
  Scope, ProgramBuilder, append, check_instruction, check_context, resolve_inputs, leave_block,
}
use stratamoto.Ir.Builder.Facts.{ScopesOk, bottom, nested, scope_ids}
use stratamoto.Ir.Builder.Invariant.{IsBuilt, VariableOk, Left, at_global, closed, leave_block-Left}
use stratamoto.Ir.Builder.Append.{
  InScope, Resolved, Fits, succeeded, refused, panicked, append-Outcome, append_of_block_end,
  after_close-panic,
}

-- At the global scope no block is open.
abbrev pub AtGlobal : ProgramBuilder → Type 0
AtGlobal b = (s : Scope) × (b.active_scopes ≡ s ∷ [])

-- An append that does not panic leaves a consistent builder consistent, on success and on error.
pub append-IsBuilt :
    (i : Instruction) (b : ProgramBuilder)
    → IsBuilt b
    → (append i b).1 ≢ panic
    → IsBuilt (append i b).0
append-IsBuilt i b h n = elim (append-Outcome i b h) [
  | succeeded b' vars e a ↦ rw e a.pushed.built
  | refused b' x e h' ↦ rw e h'
  | panicked e _ _ _ _ _ ↦ absurd (n e)
]

ScopesOk-single :
    {is : List Instruction} {n : ℕ} {ss : List Scope} (s : Scope)
    → ScopesOk is n ss
    → ss ≡ s ∷ []
    → (s.begin ≡ none) × (s.id ≡ 1)
ScopesOk-single s (bottom t e c i l) eq = let same : t ≡ s = cc in (rw (← same) e, rw (← same) i)
ScopesOk-single s (nested t m o l u (bottom _ _ _ _ _)) eq = cc
ScopesOk-single s (nested t m o l u (nested _ _ _ _ _ _)) eq = cc

-- A message under construction is not in scope while no block is open.
not_building_at_global :
    (b : ProgramBuilder) (s : Scope) (index : ℕ)
    → IsBuilt b
    → b.active_scopes ≡ s ∷ []
    → s.id ≡ 1
    → ¬ InScope b index Variable.mut_setup_connection
unfolding contains
not_building_at_global b s index h e one v =
    let ids : b.active_scopes_set ≡ 1 ∷ [] = h.active ∙ ap scope_ids e ∙ ap (λ k. k ∷ []) one in
    let at_one : contains (1 ∷ []) v.entry.scope_id ≡ true = rw ids at v.open_scope in
    let good = All-get_elem? (VariableOk b.scope_counter) b.variables index h.variables v.found in
    good.building v.typed (ground arith)

-- With no block open, only `EndOnSetupSuccess` passes the checks of a block end.
at_global-Fits :
    (i : Instruction) (b : ProgramBuilder) (s : Scope)
    → IsBuilt b
    → b.active_scopes ≡ s ∷ []
    → s.id ≡ 1
    → is_block_end i.operation ≡ true
    → Fits b i
    → (i.operation ≡ end_on_setup_success) × (i.inputs ≡ [])
unfolding is_block_end get_input_variables
at_global-Fits i b s h e one t f = by_operation i.operation i.inputs t f.resolved
  where
    by_operation :
        (op : Operation) (inputs : List ℕ)
        → is_block_end op ≡ true
        → Resolved b inputs (get_input_variables op)
        → (op ≡ end_on_setup_success) × (inputs ≡ [])
    by_operation (end_build_setup_connection p) [] t r = absurd r
    by_operation (end_build_setup_connection p) (index ∷ inputs) t r =
        absurd (not_building_at_global b s index h e one r.0)
    by_operation end_on_setup_success [] t r = (refl, refl)
    by_operation end_on_setup_success (index ∷ inputs) t r = absurd r
    by_operation op inputs t r = cc

pub stray_end_checks :
    (b : ProgramBuilder)
    → check_instruction b (record { inputs = []; operation = end_on_setup_success }) ≡ ok tt
unfolding check_instruction resolve_inputs get_input_variables num_inputs check_input_types
    check_context
stray_end_checks b = refl

stray_end-panic :
    (b : ProgramBuilder)
    → IsBuilt b
    → AtGlobal b
    → (append (record { inputs = []; operation = end_on_setup_success }) b).1 ≡ panic
stray_end-panic b h (s, e) =
    rw (append_of_block_end _ b h (stray_end_checks b) (unfold is_block_end in refl))
      (after_close-panic _ _ (of_Left (leave_block-Left end_on_setup_success b h)))
  where
    of_Left : Left end_on_setup_success b → (leave_block end_on_setup_success b).1 ≡ panic
    of_Left (at_global p _ _ _) = p
    of_Left (closed t rest o eq _ _) =
        let (none_begin, _) = ScopesOk-single s h.scopes e in
        let same : t ≡ s = cc in
        absurd (
          let p = o.begin_at in
          let q : none ≡ some o.at = sym none_begin ∙ ap (λ (x : Scope). x.begin) (sym same) ∙ p in
          cc)

-- An append to a consistent builder panics in exactly one case: a success block is ended, with no
-- inputs, while no block is open.
pub append-eq-panic_iff :
    (i : Instruction) (b : ProgramBuilder)
    → IsBuilt b
    → ((append i b).1 ≡ panic)
      ↔ ((i.operation ≡ end_on_setup_success) × (i.inputs ≡ []) × AtGlobal b)
append-eq-panic_iff i b h = (
  λ p. elim (append-Outcome i b h) [
    | succeeded b' vars e a ↦ absurd (let q : (append i b).1 ≡ ok vars = rw e in cc)
    | refused b' x e h' ↦ absurd (let q : (append i b).1 ≡ err x = rw e in cc)
    | panicked _ t f s e one ↦
        let (op, no_inputs) = at_global-Fits i b s h e one t f in (op, no_inputs, (s, e))
  ],
  λ q.
      let same : i ≡ record { inputs = []; operation = end_on_setup_success } =
        λ j. record { inputs = q.1 j; operation = q.0 j } in
      rw same (stray_end-panic b h q.2),
)
