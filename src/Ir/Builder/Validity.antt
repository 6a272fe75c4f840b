-- ===== src/Ir/Builder/Validity.antt =====
-- Programs and builders of crates/stratamoto-ir/src/builder.rs: what a rebuilt prefix holds, and
-- which programs are statically valid.
use stratamoto.Base.{
  ℕ, ◌≡◌, ◌≢◌, ◌↔◌, refl, ap, sym, ◌∙◌, true, List, [], ◌∷◌, ◌++◌, append_assoc, append-nil, some,
  none, ok, err, panic, >>=-eq-ok, subst,
}
use stratamoto.Ir.Operation.{Operation}
use stratamoto.Ir.Errors.{ProgramValidationError, unfinished_block}
use stratamoto.Ir.Instruction.{Instruction, ProgramContext, Program}
use stratamoto.Ir.Builder.{
  Scope, IndexedVariable, ProgramBuilder, Checked, new, append, append_kept, kept, append_all,
  from_prefix, from_program, finalize, validate, is_statically_valid, current_scope,
}
use stratamoto.Ir.Builder.Facts.{Opens, ScopesOk, bottom, nested}
use stratamoto.Ir.Builder.Invariant.{IsBuilt, new-IsBuilt}
use stratamoto.Ir.Builder.Append.{
  Closing, no_end, ended, Appended, succeeded, refused, panicked, append-Outcome,
}
use stratamoto.Ir.Builder.Safety.{AtGlobal}

kept_of_panic :
    (x : ProgramBuilder × Checked (List IndexedVariable)) {b' : ProgramBuilder}
    → x.1 ≡ panic
    → kept x ≢ ok b'
unfolding kept
kept_of_panic (b, ok _) h e = cc
kept_of_panic (b, err _) h e = cc
kept_of_panic (b, panic) h e = cc

-- An append that is kept is a success.
pub append_kept-eq-ok :
    (i : Instruction) (b : ProgramBuilder) {b' : ProgramBuilder}
    → IsBuilt b
    → append_kept i b ≡ ok b'
    → Appended i b b'
unfolding append_kept kept
append_kept-eq-ok i b {b'} h k = elim (append-Outcome i b h) [
  | succeeded c vars e a ↦
      subst (Appended i b)
        (let q : c ≡ b' = (let r : ok c ≡ ok b' = sym (ap kept e) ∙ k in cc) in q) a
  | refused c x e _ ↦ absurd (let r : err x ≡ ok b' = sym (ap kept e) ∙ k in cc)
  | panicked p _ _ _ _ _ ↦ absurd (kept_of_panic (append i b) p k)
]

pub Closing-kept :
    {op : Operation} {b mid : ProgramBuilder}
    → Closing op b mid
    → (mid.context ≡ b.context)
      × (mid.instructions ≡ b.instructions)
      × (mid.variables ≡ b.variables)
Closing-kept (no_end _ e) = (
  ap (λ (b : ProgramBuilder). b.context) e,
  ap (λ (b : ProgramBuilder). b.instructions) e,
  ap (λ (b : ProgramBuilder). b.variables) e,
)
Closing-kept (ended _ s rest o _ _ e) = (
  ap (λ (b : ProgramBuilder). b.context) e,
  ap (λ (b : ProgramBuilder). b.instructions) e,
  ap (λ (b : ProgramBuilder). b.variables) e,
)

pub Appended-context :
    {i : Instruction} {b b' : ProgramBuilder} → Appended i b b' → b'.context ≡ b.context
Appended-context a = a.pushed.context_kept ∙ (Closing-kept a.closing).0

pub Appended-instructions :
    {i : Instruction} {b b' : ProgramBuilder}
    → Appended i b b'
    → b'.instructions ≡ b.instructions ++ i ∷ []
Appended-instructions {i} a =
    a.pushed.instructions_grown ∙ ap (λ is. is ++ i ∷ []) (Closing-kept a.closing).1

-- What a builder that has taken in some instructions holds.
pub record Built (c : ProgramContext) (is : List Instruction) (b : ProgramBuilder) : Type 0 where
  pub context_is : b.context ≡ c
  pub instructions_are : b.instructions ≡ is
  pub built : IsBuilt b

append_all-Built :
    (c : ProgramContext) (before is : List Instruction) (b : ProgramBuilder) {b' : ProgramBuilder}
    → Built c before b
    → append_all is b ≡ ok b'
    → Built c (before ++ is) b'
unfolding append_all
append_all-Built c before [] b {b'} h e = let same : b ≡ b' = cc in rw (append-nil, ← same) h
append_all-Built c before (i ∷ is) b {b'} h e =
    let (mid, k, rest) = >>=-eq-ok (append_kept i b) (append_all is) e in
    let a = append_kept-eq-ok i b h.built k in
    rw append_assoc at (
      append_all-Built c (before ++ i ∷ []) is mid
        (record {
          context_is = Appended-context a ∙ h.context_is;
          instructions_are = Appended-instructions a ∙ ap (λ js. js ++ i ∷ []) h.instructions_are;
          built = a.pushed.built;
        })
        rest)

-- A builder rebuilt from a prefix has its context and exactly its instructions, and is consistent.
pub from_prefix-Built :
    (c : ProgramContext) (is : List Instruction) {b : ProgramBuilder}
    → from_prefix c is ≡ ok b
    → Built c is b
unfolding from_prefix new
from_prefix-Built c is e =
    append_all-Built c [] is (new c)
      (record { context_is = refl; instructions_are = refl; built = new-IsBuilt c }) e

-- Whether a consistent builder has an open block.
data Open (b : ProgramBuilder) : Type 0 where
  none_open :
      (s : Scope)
      → b.active_scopes ≡ s ∷ []
      → finalize b ≡ ok (record { context = b.context; instructions = b.instructions })
      → Open b
  some_open :
      (s t : Scope) (rest : List Scope)
      → b.active_scopes ≡ s ∷ (t ∷ rest)
      → (o : Opens b.instructions s) → finalize b ≡ err (unfinished_block o.by.operation)
      → Open b

Open-of_ScopesOk :
    (b : ProgramBuilder) {n : ℕ} {ss : List Scope}
    → ScopesOk b.instructions n ss
    → b.active_scopes ≡ ss
    → Open b
unfolding finalize current_scope
Open-of_ScopesOk b (bottom s e c i l) eq = none_open s eq (rw (eq, finalize) (rw e))
Open-of_ScopesOk b (nested s m o l u (bottom t _ _ _ _)) eq =
    some_open s t [] eq o (rw (eq, finalize) (rw o.begin_at (rw o.found)))
Open-of_ScopesOk b (nested s m o l u (nested t {rest} _ _ _ _ _)) eq =
    some_open s t rest eq o (rw (eq, finalize) (rw o.begin_at (rw o.found)))

-- Finalizing a consistent builder succeeds exactly when no block is open, and then gives the
-- builder's context and instructions.
pub finalize-eq-ok_iff :
    (b : ProgramBuilder) (p : Program)
    → IsBuilt b
    → (finalize b ≡ ok p)
      ↔ (AtGlobal b × (p ≡ record { context = b.context; instructions = b.instructions }))
finalize-eq-ok_iff b p h = elim (Open-of_ScopesOk b h.scopes refl) [
  | none_open s e f ↦ ((λ g. ((s, e), cc)), (λ q. f ∙ ap ok (sym q.1)))
  | some_open s t rest e o f ↦ ((λ g. absurd (cc)), (λ q. absurd (let (s', e') = q.0 in cc)))
]

-- Finalizing a consistent builder with an open block is an error.
pub finalize-eq-err :
    (b : ProgramBuilder)
    → IsBuilt b
    → (s t : Scope) (rest : List Scope) → b.active_scopes ≡ s ∷ (t ∷ rest)
    → (e : ProgramValidationError) × (finalize b ≡ err e)
finalize-eq-err b h s t rest e = elim (Open-of_ScopesOk b h.scopes refl) [
  | none_open s' e' _ ↦ absurd (cc)
  | some_open _ _ _ _ o f ↦ (unfinished_block o.by.operation, f)
]

pub finalize-ne-panic : (b : ProgramBuilder) → IsBuilt b → finalize b ≢ panic
finalize-ne-panic b h g = elim (Open-of_ScopesOk b h.scopes refl) [
  | none_open _ _ f ↦ cc
  | some_open _ _ _ _ o f ↦ cc
]

is_statically_valid-total :
    (p : Program) (r : Checked Program) → validate p ≡ r → r ≢ panic → is_statically_valid p ≢ none
unfolding is_statically_valid
is_statically_valid-total p (ok q) v h e = let e' = rw (v, is_statically_valid) at e in cc
is_statically_valid-total p (err x) v h e = let e' = rw (v, is_statically_valid) at e in cc
is_statically_valid-total p panic v h e = h refl

-- Whether what a rebuilt prefix leaves is valid is found out without a panic.
pub is_statically_valid-ne-none :
    (c : ProgramContext) (is : List Instruction) {b : ProgramBuilder}
    → from_prefix c is ≡ ok b
    → is_statically_valid (record { context = c; instructions = is }) ≢ none
unfolding validate from_program
is_statically_valid-ne-none c is {b} f =
    is_statically_valid-total (record { context = c; instructions = is }) (finalize b) (rw f refl)
      (finalize-ne-panic b (from_prefix-Built c is f).built)

-- A program that is rebuilt and finalized comes back as it was.
pub validate-eq-ok : (p : Program) {q : Program} → validate p ≡ ok q → q ≡ p
unfolding validate from_program
validate-eq-ok p {q} e =
    let (b, f, g) = >>=-eq-ok (from_prefix p.context p.instructions) finalize e in
    let built = from_prefix-Built p.context p.instructions f in
    let (_, same) = (finalize-eq-ok_iff b q built.built).0 g in
    same ∙ λ j. record { context = built.context_is j; instructions = built.instructions_are j }

-- What leaves `finalize` after a prefix was rebuilt is the program of that prefix, and it is
-- statically valid.
pub is_statically_valid-finalize :
    (c : ProgramContext) (is : List Instruction) {b : ProgramBuilder} {p : Program}
    → from_prefix c is ≡ ok b
    → finalize b ≡ ok p
    → (p ≡ record { context = c; instructions = is }) × (is_statically_valid p ≡ some true)
unfolding is_statically_valid validate from_program
is_statically_valid-finalize c is {b} {p} f g =
    let v : validate (record { context = c; instructions = is }) ≡ ok p = rw f g in
    let same = validate-eq-ok _ v in (same, rw same (rw (v, is_statically_valid)))
