-- ===== src/Ir/Mutators/Valid.antt =====
-- The mutators of crates/stratamoto-ir/src/mutators that append leave statically valid programs.
use stratamoto.Base.{
  ℕ, ◌+◌, ◌↔◌, map, ◌≡◌, ◌≢◌, refl, ap, sym, ◌∙◌, true, List, [], ◌∷◌, ◌++◌, some, Result, ok, err,
  panic,
}
use stratamoto.Ir.Operation.{num_outputs, num_inner_outputs}
use stratamoto.Ir.Renumber.{count_outputs}
use stratamoto.Ir.Instruction.{Instruction, Program}
use stratamoto.Ir.Builder.{Checked, from_prefix, finalize, validate, is_statically_valid}
use stratamoto.Ir.Builder.Validity.{is_statically_valid-finalize}
use stratamoto.Ir.Builder.Faults.{from_prefix-append}
use stratamoto.Ir.Generators.{Gen}
use stratamoto.Ir.Generators.Appends.{Appends}
use stratamoto.Ir.Mutators.{
  MutatorError, no_mutations_available, or_invalid, concatenated, checked_splice, splice,
  generate_mutate, variable_count, shift_inputs,
}

or_invalid-eq-ok :
    {A B : Type 0} (r : Checked A) (next : A → Result MutatorError B) {b : B}
    → or_invalid r next ≡ ok b
    → (a : A) × (r ≡ ok a) × (next a ≡ ok b)
or_invalid-eq-ok (ok a) next e = (a, refl, e)
or_invalid-eq-ok (err x) next e = cc
or_invalid-eq-ok panic next e = cc

-- When a generator that only appends is applied to a program and the mutator succeeds, the new
-- program is the old one with instructions appended, and it is statically valid.
pub generate_mutate-eq-ok :
    {S : Type 0} (g : Gen S (Unit {0})) (p q : Program) (s s' : S)
    → Appends g
    → generate_mutate g p s ≡ ok (q, s')
    → (is_statically_valid q ≡ some true)
      × ((is : List Instruction) × (q ≡ record p { instructions = p.instructions ++ is }))
unfolding generate_mutate
generate_mutate-eq-ok {S} g p q s s' h e =
    let (b, f, e₁) = or_invalid-eq-ok (from_prefix p.context p.instructions) _ e in
    let (out, x, e₂) = or_invalid-eq-ok (g (b, s)) _ e₁ in
    let (q', y, e₃) = or_invalid-eq-ok (finalize out.1.0) _ e₂ in
    let (is, z) = h.instructions_of (b, s) out.1 tt x in
    let whole : from_prefix p.context (p.instructions ++ is) ≡ ok out.1.0 =
      from_prefix-append p.context p.instructions is ∙ rw f z in
    let same : q' ≡ q = (let r : ok (q', out.1.1) ≡ ok (q, s') = e₃ in cc) in
    let (r, v) = is_statically_valid-finalize p.context (p.instructions ++ is) whole y in
    (ap is_statically_valid (sym same) ∙ v, (is, sym same ∙ r))

checked_splice-eq-ok :
    (p q : Program) → checked_splice p ≡ ok q → (q ≡ p) × (is_statically_valid q ≡ some true)
unfolding checked_splice is_statically_valid
checked_splice-eq-ok p q e =
    let (r, v, e₁) = or_invalid-eq-ok (validate p) _ e in
    let same : q ≡ p = (let x : ok p ≡ ok q = e₁ in cc) in
    (same, ap is_statically_valid same ∙ rw (v, is_statically_valid) refl)

-- the number of variables that instructions declare
abbrev pub declared : List Instruction → ℕ
declared [] = 0
declared (i ∷ is) = num_outputs i.operation + num_inner_outputs i.operation + declared is

-- The same operations, each with its inputs moved past so many variables.
abbrev pub Moved : ℕ → List Instruction → List Instruction → Type 0
Moved n [] [] = Unit
Moved n (i ∷ is) (j ∷ js) =
    (j.operation ≡ i.operation) × ((j.inputs ≡ map (λ v. v + n) i.inputs) × Moved n is js)
Moved n _ _ = ⊥

-- A program with the instructions of another appended, moved past its variables, and statically valid.
pub record Spliced (p other q : Program) : Type 0 where
  pub some_spliced : other.instructions ≢ []
  pub tail : List Instruction
  pub moved : Moved (declared p.instructions) other.instructions tail
  pub whole : q ≡ record p { instructions = p.instructions ++ tail }
  pub valid : is_statically_valid q ≡ some true

variable_count-declared : (is : List Instruction) → variable_count is ≡ declared is
unfolding variable_count count_outputs
variable_count-declared [] = refl
variable_count-declared (i ∷ is) =
    ap (λ n. num_outputs i.operation + num_inner_outputs i.operation + n)
      (variable_count-declared is)

shifted-Moved : (n : ℕ) (is : List Instruction) → Moved n is (map (shift_inputs n) is)
unfolding shift_inputs
shifted-Moved n [] = tt
shifted-Moved n (i ∷ is) = (refl, (refl, shifted-Moved n is))

Moved-shifted : (n : ℕ) (is js : List Instruction) → Moved n is js → js ≡ map (shift_inputs n) is
unfolding shift_inputs
Moved-shifted n [] [] m = refl
Moved-shifted n [] (j ∷ js) m = absurd m
Moved-shifted n (i ∷ is) [] m = absurd m
Moved-shifted n (i ∷ is) (j ∷ js) (op, (inputs, m)) =
    let first : j ≡ shift_inputs n i = (λ k. record { inputs = inputs k; operation = op k }) in
    let rest = Moved-shifted n is js m in cc

-- What is put together is the other program moved past the declared variables.
concatenated_lem :
    (p other : Program)
    → concatenated p other ≡ record p {
      instructions =
          p.instructions ++ map (shift_inputs (declared p.instructions)) other.instructions;
    }
unfolding concatenated
concatenated_lem p other = rw (variable_count-declared p.instructions) refl

checked_splice-valid :
    (p : Program) (r : Checked Program)
    → validate p ≡ r
    → is_statically_valid p ≡ some true
    → checked_splice p ≡ ok p
unfolding checked_splice is_statically_valid
checked_splice-valid p (ok u) e v = rw (e, checked_splice) refl
checked_splice-valid p (err x) e v = let no = (rw (e, is_statically_valid) at v) in cc
checked_splice-valid p panic e v = let no = (rw (e, is_statically_valid) at v) in cc

splice_some :
    (p other : Program) (is : List Instruction)
    → other.instructions ≡ is
    → is ≢ []
    → splice p other ≡ checked_splice (concatenated p other)
unfolding splice
splice_some p other [] x n = absurd (n refl)
splice_some p other (i ∷ is) x n =
    let go : List Instruction → Result MutatorError Program = λ js. elim js [
      | [] ↦ err no_mutations_available
      | _ ∷ _ ↦ checked_splice (concatenated p other)
    ] in
    ap go x

splice-Spliced :
    (p other q : Program) (is : List Instruction)
    → other.instructions ≡ is
    → splice p other ≡ ok q
    → Spliced p other q
unfolding splice
splice-Spliced p other q [] x e = absurd (let e' = rw (x, splice) at e in cc)
splice-Spliced p other q (i ∷ is) x e =
    let filled : other.instructions ≢ [] = (λ z. cc) in
    let (same, valid) =
      checked_splice-eq-ok (concatenated p other) q
        (sym (splice_some p other other.instructions refl filled) ∙ e) in
    record {
      some_spliced = filled;
      tail = map (shift_inputs (declared p.instructions)) other.instructions;
      moved = shifted-Moved (declared p.instructions) other.instructions;
      whole = same ∙ concatenated_lem p other;
      valid = valid;
    }

Spliced-concatenated : (p other q : Program) → Spliced p other q → q ≡ concatenated p other
Spliced-concatenated p other q s =
    s.whole
    ∙ (ap (λ t. record p { instructions = p.instructions ++ t })
          (Moved-shifted (declared p.instructions) other.instructions s.tail s.moved)
        ∙ sym (concatenated_lem p other))

-- Splicing gives a program just where the other program has instructions and the program is the old
-- one followed by them, in their order, with their operations and their inputs moved past the number
-- of variables that the old one declares, and is statically valid.
pub splice-eq-ok_iff : (p other q : Program) → (splice p other ≡ ok q) ↔ Spliced p other q
splice-eq-ok_iff p other q = (
  splice-Spliced p other q other.instructions refl,
  λ s.
      let same = Spliced-concatenated p other q s in
      splice_some p other other.instructions refl s.some_spliced
      ∙ (checked_splice-valid (concatenated p other) _ refl
            (ap is_statically_valid (sym same) ∙ s.valid)
          ∙ ap ok (sym same)),
)
