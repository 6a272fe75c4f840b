-- ===== src/Ir/Builder/Invariant.antt =====
-- The builder of crates/stratamoto-ir/src/builder.rs keeps its scopes, its set of scopes and its
-- variables consistent, whatever instructions it is given.
use stratamoto.Base.{
  ℕ, ◌+◌, ◌≤◌, ◌≡◌, ◌≢◌, refl, ap, ◌∙◌, true, false, List, [], ◌∷◌, ◌++◌, map, length, map-append,
  append_assoc, Option, none, some, arith, contains, set_insert, set_remove, All, All-append,
  All-imp, All-replicate, Bool-cases, inl, inr, ok, err, panic, if◌then◌else◌, get_elem?-append_mid,
}
use stratamoto.Ir.Variable.{Variable}
use stratamoto.Ir.Operation.{
  Operation, nop, is_block_begin, is_nop, is_matching_block_begin, get_output_variables,
  get_inner_output_variables,
}
use stratamoto.Ir.Errors.{invalid_block_end}
use stratamoto.Ir.Instruction.{
  Instruction, InstructionContext, ProgramContext, entered_context, entered_context_after_execution,
}
use stratamoto.Ir.Builder.{
  Scope, ScopedVariable, ProgramBuilder, scoped, new, enter_scope, exit_scope, current_scope,
  leave_block, output_scope_id, inner_scope_id, enter_block, push_instruction, declare_variables,
}
use stratamoto.Ir.Builder.Facts.{
  nops, begins, plain, shape, Opens, ScopesOk, bottom, nested, ScopesOk-le, ScopesOk-append,
  scope_ids, ScopesOk-pos, ScopesOk-fresh, set_remove-cons, set_insert-fresh,
}

-- A variable's scope was opened before, and a message under construction is never global.
pub record VariableOk (n : ℕ) (v : ScopedVariable) : Type 0 where
  pub opened : v.scope_id ≤ n
  pub building : v.var ≡ Variable.mut_setup_connection → v.scope_id ≢ 1

pub record IsBuilt (b : ProgramBuilder) : Type 0 where
  pub scopes : ScopesOk b.instructions b.scope_counter b.active_scopes
  pub active : b.active_scopes_set ≡ scope_ids b.active_scopes
  pub variables : All (VariableOk b.scope_counter) b.variables

-- A new builder is consistent.
pub new-IsBuilt : (c : ProgramContext) → IsBuilt (new c)
unfolding new set_insert contains
new-IsBuilt c = record {
  scopes = bottom _ refl refl refl (omega arith);
  active = refl;
  variables = tt;
}

-- The builder once the scope `s` is left for `rest`.
abbrev pub left_for : Scope → List Scope → ProgramBuilder → ProgramBuilder
left_for s rest b = record b {
  active_scopes = rest;
  active_scopes_set = set_remove s.id b.active_scopes_set;
}

-- What leaving the innermost block comes to.
pub data Left (op : Operation) (b : ProgramBuilder) : Type 0 where
  -- the global scope has no beginning, and the `expect` on it fails
  at_global :
      (leave_block op b).1 ≡ panic → (s : Scope) → b.active_scopes ≡ s ∷ [] → s.id ≡ 1 → Left op b
  closed :
      (s : Scope) (rest : List Scope) (o : Opens b.instructions s)
      → b.active_scopes ≡ s ∷ rest
      → leave_block op b ≡ (
        left_for s rest b,
        if is_matching_block_begin op o.by.operation
            then ok tt
            else err (invalid_block_end o.by.operation op),
      )
      → IsBuilt (left_for s rest b)
      → Left op b

leave_block-eq :
    (op : Operation) (b : ProgramBuilder) (s : Scope) (rest : List Scope)
    (o : Opens b.instructions s)
    → b.active_scopes ≡ s ∷ rest
    → leave_block op b ≡ (
      left_for s rest b,
      if is_matching_block_begin op o.by.operation
          then ok tt
          else err (invalid_block_end o.by.operation op),
    )
unfolding leave_block exit_scope
leave_block-eq op b s rest o eq =
    rw (eq, o.begin_at, o.found)
      (elim (Bool-cases (is_matching_block_begin op o.by.operation)) [
        | inl e ↦ rw e
        | inr e ↦ rw e
      ])

Left-of_ScopesOk :
    (op : Operation) (b : ProgramBuilder) {n : ℕ} {ss : List Scope}
    → IsBuilt b
    → ScopesOk b.instructions n ss
    → n ≤ b.scope_counter
    → b.active_scopes ≡ ss
    → Left op b
unfolding leave_block exit_scope
Left-of_ScopesOk op b h (bottom s e c i l) le eq = at_global (rw (eq, e)) s eq i
Left-of_ScopesOk op b h (nested s {rest} m o l u r) le eq =
    closed s rest o eq (leave_block-eq op b s rest o eq) (record {
      scopes = ScopesOk-le (omega arith) r;
      active =
          ap (set_remove s.id) (h.active ∙ ap scope_ids eq)
          ∙ set_remove-cons (scope_ids rest) s.id (ScopesOk-fresh r s.id l);
      variables = h.variables;
    })

-- Leaving a block of a consistent builder fails on the global scope, and gives a consistent builder
-- otherwise.
pub leave_block-Left : (op : Operation) (b : ProgramBuilder) → IsBuilt b → Left op b
leave_block-Left op b h = Left-of_ScopesOk op b h h.scopes (omega arith) refl

-- The scopes once an instruction has opened its block, if it opens one.
abbrev pub opened_scopes : Option InstructionContext → ProgramBuilder → List Scope
opened_scopes none b = b.active_scopes
opened_scopes (some c) b =
    record { begin = some (length b.instructions); id = b.scope_counter + 1; context = c }
    ∷ b.active_scopes

-- What `push_instruction` does to a consistent builder.
pub record Pushed (i : Instruction) (b b' : ProgramBuilder) : Type 0 where
  pub pushes : push_instruction i b ≡ some b'
  pub context_kept : b'.context ≡ b.context
  pub instructions_grown : b'.instructions ≡ b.instructions ++ i ∷ []
  pub scopes_grown : b'.active_scopes ≡ opened_scopes (entered_context i.operation) b
  pub variables_grown :
      map (λ (v : ScopedVariable). v.var) b'.variables
      ≡ map (λ (v : ScopedVariable). v.var) b.variables
        ++ (get_output_variables i.operation ++ get_inner_output_variables i.operation)
  pub built : IsBuilt b'

-- A message under construction is never an output in the scope of the operation itself.
outputs-ne-mut :
    (op : Operation) → All (λ v. v ≢ Variable.mut_setup_connection) (get_output_variables op)
unfolding get_output_variables
outputs-ne-mut (nop outputs _) = All-replicate _ outputs (λ e. cc)
outputs-ne-mut _ = ground arith

scoped-Ok :
    (n k : ℕ) (vars : List Variable)
    → k ≤ n
    → All (λ v. v ≡ Variable.mut_setup_connection → k ≢ 1) vars
    → All (VariableOk n) (map (scoped k) vars)
scoped-Ok n k [] l h = tt
scoped-Ok n k (v ∷ vars) l h = (record { opened = l; building = h.0 }, scoped-Ok n k vars l h.1)

vars-scoped :
    (k : ℕ) (vars : List Variable)
    → map (λ (v : ScopedVariable). v.var) (map (scoped k) vars) ≡ vars
vars-scoped k [] = refl
vars-scoped k (v ∷ vars) = ap (λ rest. v ∷ rest) (vars-scoped k vars)

-- The current scope of a consistent builder, and its identifier.
pub current_scope-some :
    (b : ProgramBuilder) {n : ℕ} {ss : List Scope}
    → ScopesOk b.instructions n ss
    → b.active_scopes ≡ ss
    → (s : Scope) × (current_scope b ≡ some s) × (s.id ≤ n)
unfolding current_scope
current_scope-some b (bottom s e c i l) eq = (s, rw eq, omega arith)
current_scope-some b (nested s m o l u r) eq = (s, rw eq, omega arith)

-- The two extensions of the variables keep them as the invariant wants them.
grown-Ok :
    (n m o k : ℕ) (vs : List ScopedVariable) (outs inners : List Variable)
    → n ≤ m
    → o ≤ m
    → k ≤ m
    → All (VariableOk n) vs
    → All (λ v. v ≡ Variable.mut_setup_connection → o ≢ 1) outs
    → All (λ v. v ≡ Variable.mut_setup_connection → k ≢ 1) inners
    → All (VariableOk m) ((vs ++ map (scoped o) outs) ++ map (scoped k) inners)
grown-Ok n m o k vs outs inners ln lo lk h ho hk =
    All-append (VariableOk m) _ _
      (All-append (VariableOk m) vs _
        (All-imp (VariableOk n) (VariableOk m) vs
          (λ v ok. record { opened = omega (arith, ok.opened); building = ok.building }) h)
        (scoped-Ok m o outs lo ho))
      (scoped-Ok m k inners lk hk)

grown-vars :
    (o k : ℕ) (vs : List ScopedVariable) (outs inners : List Variable)
    → map (λ (v : ScopedVariable). v.var) ((vs ++ map (scoped o) outs) ++ map (scoped k) inners)
      ≡ map (λ (v : ScopedVariable). v.var) vs ++ (outs ++ inners)
grown-vars o k vs outs inners = simp (map-append, append_assoc, vars-scoped)

outputs-building :
    (op : Operation) (k : ℕ)
    → All (λ v. v ≡ Variable.mut_setup_connection → k ≢ 1) (get_output_variables op)
outputs-building op k =
    All-imp (λ v. v ≢ Variable.mut_setup_connection) _ (get_output_variables op)
      (λ v n e. absurd (n e)) (outputs-ne-mut op)

not_one-building :
    (k : ℕ) (vars : List Variable)
    → k ≢ 1
    → All (λ v. v ≡ Variable.mut_setup_connection → k ≢ 1) vars
not_one-building k [] h = tt
not_one-building k (v ∷ vars) h = ((λ _. h), not_one-building k vars h)

module _ (i : Instruction) (b : ProgramBuilder) (h : IsBuilt b) where
  Pushed-nops :
      is_nop i.operation ≡ true
      → is_block_begin i.operation ≡ false
      → entered_context i.operation ≡ none
      → (b' : ProgramBuilder) × Pushed i b b'
  unfolding push_instruction output_scope_id inner_scope_id enter_block declare_variables
  Pushed-nops n p c = (
    record b {
      variables =
          (b.variables ++ map (scoped 0) (get_output_variables i.operation))
          ++ map (scoped 0) (get_inner_output_variables i.operation);
      instructions = b.instructions ++ i ∷ [];
    },
    record {
      pushes = rw (n, p, push_instruction, output_scope_id, enter_block, inner_scope_id) (rw n);
      context_kept = refl;
      instructions_grown = refl;
      scopes_grown = rw c;
      variables_grown = grown-vars 0 0 b.variables _ _;
      built = record {
        scopes = ScopesOk-append (i ∷ []) h.scopes;
        active = h.active;
        variables =
            grown-Ok _ _ 0 0 b.variables _ _ (omega arith) (omega arith) (omega arith) h.variables
              (outputs-building i.operation 0)
              (not_one-building 0 (get_inner_output_variables i.operation) (omega arith));
      };
    },
  )

  Pushed-plain :
      is_nop i.operation ≡ false
      → is_block_begin i.operation ≡ false
      → entered_context i.operation ≡ none
      → get_inner_output_variables i.operation ≡ []
      → (b' : ProgramBuilder) × Pushed i b b'
  unfolding push_instruction output_scope_id inner_scope_id enter_block declare_variables
  Pushed-plain n p c q =
      let (s, top, le) = current_scope-some b h.scopes refl in
      (
        record b {
          variables =
              (b.variables ++ map (scoped s.id) (get_output_variables i.operation))
              ++ map (scoped b.scope_counter) (get_inner_output_variables i.operation);
          instructions = b.instructions ++ i ∷ [];
        },
        record {
          pushes =
              rw (n, push_instruction, output_scope_id)
                (rw (top, push_instruction, output_scope_id) (rw (p, enter_block) (rw n)));
          context_kept = refl;
          instructions_grown = refl;
          scopes_grown = rw c;
          variables_grown = grown-vars s.id b.scope_counter b.variables _ _;
          built = record {
            scopes = ScopesOk-append (i ∷ []) h.scopes;
            active = h.active;
            variables =
                grown-Ok _ _ s.id b.scope_counter b.variables _ _ (omega arith) le (omega arith)
                  h.variables (outputs-building i.operation s.id) (rw q tt);
          };
        },
      )

  Pushed-begins :
      (c : InstructionContext)
      → is_nop i.operation ≡ false
      → is_block_begin i.operation ≡ true
      → entered_context i.operation ≡ some c
      → (b' : ProgramBuilder) × Pushed i b b'
  unfolding push_instruction output_scope_id inner_scope_id enter_block declare_variables
      enter_scope entered_context_after_execution
  Pushed-begins c n p q =
      let (s, top, le) = current_scope-some b h.scopes refl in
      let k = b.scope_counter + 1 in
      let new_scope : Scope = record {
        begin = some (length b.instructions);
        id = k;
        context = c;
      } in
      (
        record b {
          scope_counter = k;
          active_scopes = new_scope ∷ b.active_scopes;
          active_scopes_set = set_insert k b.active_scopes_set;
          variables =
              (b.variables ++ map (scoped s.id) (get_output_variables i.operation))
              ++ map (scoped k) (get_inner_output_variables i.operation);
          instructions = b.instructions ++ i ∷ [];
        },
        record {
          pushes =
              rw (n, push_instruction, output_scope_id)
                (rw (top, push_instruction, output_scope_id) (rw (p, q, enter_block) (rw n)));
          context_kept = refl;
          instructions_grown = refl;
          scopes_grown = rw q;
          variables_grown = grown-vars s.id k b.variables _ _;
          built = record {
            scopes =
                nested new_scope b.scope_counter
                  (record {
                    at = length b.instructions;
                    by = i;
                    begin_at = refl;
                    found = get_elem?-append_mid b.instructions [] i;
                    enters = q;
                  })
                  (omega arith) (omega arith) (ScopesOk-append (i ∷ []) h.scopes);
            active =
                ap (set_insert k) h.active
                ∙ set_insert-fresh (scope_ids b.active_scopes) k
                    (ScopesOk-fresh h.scopes k (omega arith));
            variables =
                grown-Ok _ _ s.id k b.variables _ _ (omega arith) (omega arith) (omega arith)
                  h.variables (outputs-building i.operation s.id)
                  (not_one-building k (get_inner_output_variables i.operation)
                    (let pos : 1 ≤ b.scope_counter = ScopesOk-pos h.scopes in omega arith));
          };
        },
      )

  -- Pushing an instruction to a consistent builder never fails, and gives a consistent builder.
  pub push_instruction-Pushed : (b' : ProgramBuilder) × Pushed i b b'
  push_instruction-Pushed = elim (shape i.operation) [
    | nops n p c ↦ Pushed-nops n p c
    | begins c n p q ↦ Pushed-begins c n p q
    | plain n p c q ↦ Pushed-plain n p c q
  ]
