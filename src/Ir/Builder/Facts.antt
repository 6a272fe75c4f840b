-- ===== src/Ir/Builder/Facts.antt =====
-- Facts about operations and scopes that the proofs on crates/stratamoto-ir/src/builder.rs share.
use stratamoto.Base.{
  ℕ, ◌≤◌, ◌<◌, ◌≡◌, refl, true, false, List, [], ◌∷◌, ◌++◌, get_elem?, none, some, arith, contains,
  set_insert, set_remove, get_elem?-append_left,
}
use stratamoto.Ir.Operation.{
  Operation, nop, begin_build_setup_connection, begin_on_setup_success, is_block_begin, is_nop,
  get_inner_output_variables,
}
use stratamoto.Ir.Instruction.{Instruction, InstructionContext, global, entered_context}
use stratamoto.Ir.Builder.{Scope}

-- The three shapes that an operation has for the builder.
pub data Shape (op : Operation) : Type 0 where
  nops : is_nop op ≡ true → is_block_begin op ≡ false → entered_context op ≡ none → Shape op
  begins :
      (c : InstructionContext)
      → is_nop op ≡ false
      → is_block_begin op ≡ true
      → entered_context op ≡ some c
      → Shape op
  plain :
      is_nop op ≡ false
      → is_block_begin op ≡ false
      → entered_context op ≡ none
      → get_inner_output_variables op ≡ []
      → Shape op

pub shape : (op : Operation) → Shape op
unfolding is_nop is_block_begin entered_context get_inner_output_variables
shape (nop _ _) = nops refl refl refl
shape begin_build_setup_connection = begins _ refl refl refl
shape (begin_on_setup_success _) = begins _ refl refl refl
shape _ = plain refl refl refl refl

-- The scope was opened by the instruction that it names, and is of that instruction's context.
pub record Opens (is : List Instruction) (s : Scope) : Type 0 where
  pub at : ℕ
  pub by : Instruction
  pub begin_at : s.begin ≡ some at
  pub found : get_elem? is at ≡ some by
  pub enters : entered_context by.operation ≡ some s.context

-- Scopes, innermost first, with falling identifiers of at most `n`, above the global one.
pub data ScopesOk (is : List Instruction) : ℕ → List Scope → Type 0 where
  bottom :
      {n : ℕ} (s : Scope)
      → s.begin ≡ none
      → s.context ≡ global
      → s.id ≡ 1
      → 1 ≤ n
      → ScopesOk is n (s ∷ [])
  nested :
      {n : ℕ} (s : Scope) {rest : List Scope} (m : ℕ)
      → Opens is s
      → m < s.id
      → s.id ≤ n
      → ScopesOk is m rest
      → ScopesOk is n (s ∷ rest)

pub ScopesOk-le :
    {is : List Instruction} {n m : ℕ} {ss : List Scope}
    → n ≤ m
    → ScopesOk is n ss
    → ScopesOk is m ss
ScopesOk-le h (bottom s e c i l) = bottom s e c i (omega arith)
ScopesOk-le h (nested s k o l u r) = nested s k o l (omega arith) r

Opens-append :
    {is : List Instruction} (js : List Instruction) {s : Scope} → Opens is s → Opens (is ++ js) s
Opens-append {is} js o = record {
  at = o.at;
  by = o.by;
  begin_at = o.begin_at;
  found = get_elem?-append_left is js o.at o.found;
  enters = o.enters;
}

pub ScopesOk-append :
    {is : List Instruction} (js : List Instruction) {n : ℕ} {ss : List Scope}
    → ScopesOk is n ss
    → ScopesOk (is ++ js) n ss
ScopesOk-append js (bottom s e c i l) = bottom s e c i l
ScopesOk-append js (nested s k o l u r) = nested s k (Opens-append js o) l u (ScopesOk-append js r)

abbrev pub scope_ids : List Scope → List ℕ
scope_ids [] = []
scope_ids (s ∷ ss) = s.id ∷ scope_ids ss

pub ScopesOk-pos : {is : List Instruction} {n : ℕ} {ss : List Scope} → ScopesOk is n ss → 1 ≤ n
ScopesOk-pos (bottom s e c i l) = l
ScopesOk-pos (nested s k o l u r) = omega arith

-- No scope has an identifier above the bound.
pub ScopesOk-fresh :
    {is : List Instruction} {n : ℕ} {ss : List Scope}
    → ScopesOk is n ss
    → (k : ℕ) → n < k
    → contains (scope_ids ss) k ≡ false
unfolding contains
ScopesOk-fresh (bottom s e c i l) k h = ground arith
ScopesOk-fresh (nested s m o l u r) k h = ground (arith, ScopesOk-fresh r k (omega arith))

set_remove-fresh : (xs : List ℕ) (k : ℕ) → contains xs k ≡ false → set_remove k xs ≡ xs
unfolding set_remove contains
set_remove-fresh [] k h = refl
set_remove-fresh (x ∷ xs) k h = ground (arith, set_remove-fresh xs k)

pub set_remove-cons : (xs : List ℕ) (k : ℕ) → contains xs k ≡ false → set_remove k (k ∷ xs) ≡ xs
unfolding set_remove
set_remove-cons xs k h = ground (arith, set_remove-fresh xs k h)

pub set_insert-fresh : (xs : List ℕ) (k : ℕ) → contains xs k ≡ false → set_insert k xs ≡ k ∷ xs
unfolding set_insert
set_insert-fresh xs k h = rw h
