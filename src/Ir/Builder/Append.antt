-- ===== src/Ir/Builder/Append.antt =====
-- `ProgramBuilder::append` of crates/stratamoto-ir/src/builder.rs: what each of its results means.
use stratamoto.Base.{
  ℕ, ◌≡◌, ◌≢◌, refl, ap, ◌∙◌, true, false, List, [], ◌∷◌, length, get_elem?, some, arith, contains,
  Option-cases, Bool-cases, inl, inr, ok, err, panic, ◌==◌, >>=-eq-ok, >>=-ne-panic, subst,
}
use stratamoto.Ir.Variable.{Variable}
use stratamoto.Ir.Operation.{
  Operation, is_block_end, is_matching_block_begin, get_input_variables, num_inputs,
}
use stratamoto.Ir.Errors.{
  ProgramValidationError, invalid_block_end, check_input_types, check_zipped, check_input_types→eq,
}
use stratamoto.Ir.Instruction.{Instruction, ProgramContext}
use stratamoto.Ir.Builder.{
  Scope, ScopedVariable, IndexedVariable, ProgramBuilder, Checked, resolve_input, resolve_inputs,
  check_context, check_instruction, leave_block, close_block, push_instruction, finish_append,
  after_close, after_check, append, new_variables,
}
use stratamoto.Ir.Builder.Facts.{Opens}
use stratamoto.Ir.Builder.Invariant.{
  IsBuilt, Left, at_global, closed, left_for, leave_block-Left, Pushed, push_instruction-Pushed,
}

-- An index names a variable of the given type in an open scope.
pub record InScope (b : ProgramBuilder) (index : ℕ) (v : Variable) : Type 0 where
  pub entry : ScopedVariable
  pub found : get_elem? b.variables index ≡ some entry
  pub typed : entry.var ≡ v
  pub open_scope : contains b.active_scopes_set entry.scope_id ≡ true

-- The inputs name variables of the given types in open scopes, one each.
abbrev pub Resolved : ProgramBuilder → List ℕ → List Variable → Type 0
Resolved b [] [] = Unit
Resolved b (i ∷ is) (v ∷ vs) = InScope b i v × Resolved b is vs
Resolved b _ _ = ⊥

resolve_input-eq-ok :
    (b : ProgramBuilder) (i : ℕ) (v : Variable) → resolve_input b i ≡ ok v → InScope b i v
unfolding resolve_input
resolve_input-eq-ok b i v h = elim (Option-cases (get_elem? b.variables i)) [
  | inl e ↦ absurd (ground arith)
  | inr (s, e) ↦ elim (Bool-cases (contains b.active_scopes_set s.scope_id)) [
    | inl t ↦ record { entry = s; found = e; typed = ground arith; open_scope = t }
    | inr f ↦ absurd (ground arith)
  ]
]

resolve_inputs-eq-ok :
    (b : ProgramBuilder) (is : List ℕ) (vs : List Variable)
    → resolve_inputs b is ≡ ok vs
    → Resolved b is vs
unfolding resolve_inputs
resolve_inputs-eq-ok b [] [] h = tt
resolve_inputs-eq-ok b [] (v ∷ vs) h = cc
resolve_inputs-eq-ok b (i ∷ is) vs h =
    let (v, e, h') = >>=-eq-ok (resolve_input b i) _ h in
    let (ws, e', h'') = >>=-eq-ok (resolve_inputs b is) _ h' in
    subst (Resolved b (i ∷ is)) (let q : v ∷ ws ≡ vs = cc in q)
      (resolve_input-eq-ok b i v e, resolve_inputs-eq-ok b is ws e')

-- What an instruction that passes every check is.
pub record Fits (b : ProgramBuilder) (i : Instruction) : Type 0 where
  pub resolved : Resolved b i.inputs (get_input_variables i.operation)
  pub in_context : check_context b.context i.operation ≡ ok tt

check_instruction-eq-ok :
    (b : ProgramBuilder) (i : Instruction) → check_instruction b i ≡ ok tt → Fits b i
unfolding check_instruction
check_instruction-eq-ok b i h = elim (Bool-cases (num_inputs i.operation == length i.inputs)) [
  | inl e ↦
      let h₁ = rw e at h in
      let (vs, e₁, h₂) = >>=-eq-ok (resolve_inputs b i.inputs) _ h₁ in
      let (u, e₂, h₃) = >>=-eq-ok (check_input_types i.operation vs) _ h₂ in
      record {
        resolved =
            subst (Resolved b i.inputs) (check_input_types→eq i.operation vs e₂)
              (resolve_inputs-eq-ok b i.inputs vs e₁);
        in_context = h₃;
      }
  | inr e ↦ absurd (ground arith)
]

-- None of the checks panics.
resolve_inputs-ne-panic : (b : ProgramBuilder) (is : List ℕ) → resolve_inputs b is ≢ panic
unfolding resolve_inputs resolve_input
resolve_inputs-ne-panic b [] h = cc
resolve_inputs-ne-panic b (i ∷ is) h = ground (arith, resolve_inputs-ne-panic b is)

check_zipped-ne-panic : (got expected : List Variable) → check_zipped got expected ≢ panic
unfolding check_zipped
check_zipped-ne-panic [] _ h = cc
check_zipped-ne-panic (g ∷ got) [] h = cc
check_zipped-ne-panic (g ∷ got) (e ∷ expected) h =
    ground (arith, check_zipped-ne-panic got expected)

check_context-ne-panic : (c : ProgramContext) (op : Operation) → check_context c op ≢ panic
unfolding check_context
check_context-ne-panic c op h = ground arith

check_input_types-ne-panic : (op : Operation) (vs : List Variable) → check_input_types op vs ≢ panic
unfolding check_input_types
check_input_types-ne-panic op vs h =
    ground (arith, check_zipped-ne-panic vs (get_input_variables op))

check_instruction-ne-panic : (b : ProgramBuilder) (i : Instruction) → check_instruction b i ≢ panic
unfolding check_instruction
check_instruction-ne-panic b i = elim (Bool-cases (num_inputs i.operation == length i.inputs)) [
  | inl e ↦ rw e (
      >>=-ne-panic (resolve_inputs b i.inputs) _ (resolve_inputs-ne-panic b i.inputs) (λ vs.
        >>=-ne-panic (check_input_types i.operation vs) _
          (check_input_types-ne-panic i.operation vs)
          (λ _. check_context-ne-panic b.context i.operation)))
  | inr e ↦ rw e (λ h. cc)
]

-- What a successful append did.
pub data Closing (op : Operation) (b mid : ProgramBuilder) : Type 0 where
  no_end : is_block_end op ≡ false → mid ≡ b → Closing op b mid
  ended :
      is_block_end op ≡ true
      → (s : Scope) (rest : List Scope) (o : Opens b.instructions s) → b.active_scopes ≡ s ∷ rest
      → is_matching_block_begin op o.by.operation ≡ true
      → mid ≡ left_for s rest b
      → Closing op b mid

pub record Appended (i : Instruction) (b b' : ProgramBuilder) : Type 0 where
  pub fits : Fits b i
  pub mid : ProgramBuilder
  pub closing : Closing i.operation b mid
  pub pushed : Pushed i mid b'

-- The results of `append` on a consistent builder.
pub data Outcome (i : Instruction) (b : ProgramBuilder) : Type 0 where
  succeeded :
      (b' : ProgramBuilder) (vars : List IndexedVariable)
      → append i b ≡ (b', ok vars)
      → Appended i b b'
      → Outcome i b
  refused :
      (b' : ProgramBuilder) (e : ProgramValidationError)
      → append i b ≡ (b', err e)
      → IsBuilt b'
      → Outcome i b
  panicked :
      (append i b).1 ≡ panic
      → is_block_end i.operation ≡ true
      → Fits b i
      → (s : Scope) → b.active_scopes ≡ s ∷ []
      → s.id ≡ 1
      → Outcome i b

pub after_close-panic :
    (i : Instruction) (x : ProgramBuilder × Checked (Unit {0}))
    → x.1 ≡ panic
    → (after_close i x).1 ≡ panic
unfolding after_close
after_close-panic i (b, ok u) h = cc
after_close-panic i (b, err e) h = cc
after_close-panic i (b, panic) h = refl

module _ (i : Instruction) (b : ProgramBuilder) (h : IsBuilt b) where
  finish_append-Appended :
      (mid : ProgramBuilder)
      → IsBuilt mid
      → Fits b i
      → Closing i.operation b mid
      → append i b ≡ finish_append i mid (push_instruction i mid)
      → Outcome i b
  unfolding finish_append
  finish_append-Appended mid hm f c e =
      let (b', p) = push_instruction-Pushed i mid hm in
      succeeded b' (new_variables (length mid.variables) 0 b'.variables) (e ∙ rw p.pushes)
        (record { fits = f; mid = mid; closing = c; pushed = p })

  pub append_of_block_end :
      check_instruction b i ≡ ok tt
      → is_block_end i.operation ≡ true
      → append i b ≡ after_close i (leave_block i.operation b)
  unfolding append after_check close_block
  append_of_block_end c t = rw (c, append, after_check) (rw (t, close_block))

  -- `append` once the checks have passed, for an operation that ends a block
  Outcome-of_Left :
      check_instruction b i ≡ ok tt
      → is_block_end i.operation ≡ true
      → Left i.operation b
      → Outcome i b
  unfolding after_close
  Outcome-of_Left c t (at_global p s e one) =
      panicked (rw (append_of_block_end c t) (after_close-panic i (leave_block i.operation b) p)) t
        (check_instruction-eq-ok b i c) s e one
  Outcome-of_Left c t (closed s rest o e eq hm) =
      elim (Bool-cases (is_matching_block_begin i.operation o.by.operation)) [
        | inl m ↦
            finish_append-Appended (left_for s rest b) hm (check_instruction-eq-ok b i c)
              (ended t s rest o e m refl)
              (append_of_block_end c t ∙ ap (after_close i) (rw m at eq))
        | inr m ↦
            refused (left_for s rest b) (invalid_block_end o.by.operation i.operation)
              (append_of_block_end c t ∙ ap (after_close i) (rw m at eq)) hm
      ]

  Outcome-of_check : (r : Checked (Unit {0})) → check_instruction b i ≡ r → Outcome i b
  unfolding append after_check after_close close_block
  Outcome-of_check (err e) c = refused b e (rw (c, append)) h
  Outcome-of_check panic c = absurd (check_instruction-ne-panic b i c)
  Outcome-of_check (ok u) c = elim (Bool-cases (is_block_end i.operation)) [
    | inl t ↦ Outcome-of_Left c t (leave_block-Left i.operation b h)
    | inr f ↦
        finish_append-Appended b h (check_instruction-eq-ok b i c) (no_end f refl)
          (rw (c, append, after_check) (rw (f, close_block)))
  ]

  -- Every append to a consistent builder has one of the three outcomes.
  pub append-Outcome : Outcome i b
  append-Outcome = Outcome-of_check (check_instruction b i) refl
