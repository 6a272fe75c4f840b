-- ===== src/Ir/Minimizers/Nopping/Candidates.antt =====
-- What `NoppingMinimizer` of crates/stratamoto-ir/src/minimizers/nopping.rs proposes.
use stratamoto.Base.{
  ℕ, zero, suc, ◌+◌, ◌≤◌, ◌≡◌, refl, ap, sym, set, subst, ◌==◌, ==_iff, Bool, ◌∙◌, true, false,
  ◌||◌, not, length, get_elem?, get_elem?-lt-length, List, [], ◌∷◌, none, some, inl, inr,
  Bool-cases, Option-cases, arith,
}
use stratamoto.Ir.Operation.{nop, is_nop, num_outputs, num_inner_outputs}
use stratamoto.Ir.Instruction.{Instruction, Program, is_noppable, to_nop}
use stratamoto.Ir.Builder.{is_statically_valid}
use stratamoto.Ir.Minimizers.{Next, yielded, exhausted, panicked, out_of_fuel}
use stratamoto.Ir.Minimizers.Nopping.Skipped.{
  IsDelimiter, IsNothing, delimited, IsNothing-is_nop, hindered,
}
use stratamoto.Ir.Minimizers.Nopping.{NoppingMinimizer, nop_at, next_within, next}

-- An instruction at or after the minimizer's place that is not a block's delimiter and not a nop.
pub record CanNop (m : NoppingMinimizer) (k : ℕ) (i : Instruction) : Type 0 where
  pub not_before : m.next_index ≤ k
  pub found : get_elem? m.program.instructions k ≡ some i
  pub no_delimiter : ¬ (IsDelimiter i.operation)
  pub no_nop : ¬ (IsNothing i.operation)

-- The program with an instruction replaced by one that reads nothing and does nothing, and has as many
-- outputs in both scopes.
abbrev pub nopped : ℕ → Instruction → Program → Program
nopped k i p = record p {
  instructions = set p.instructions k (record {
    inputs = [];
    operation = nop (num_outputs i.operation) (num_inner_outputs i.operation);
  });
}

-- A proposal: the program with one such instruction replaced by a nop, and statically valid.
pub record Nops (m : NoppingMinimizer) (c : Program) (m' : NoppingMinimizer) : Type 0 where
  pub at : ℕ
  pub by : Instruction
  pub can : CanNop m at by
  pub proposal : c ≡ nopped at by m.program
  pub valid : is_statically_valid c ≡ some true
  pub state : m' ≡ record m { candidate = some c; next_index = at }

-- No such instruction can be replaced: the program is not statically valid without it.
abbrev pub NoneLeft : NoppingMinimizer → Type 0
NoneLeft m =
    (k : ℕ) (i : Instruction)
    → CanNop m k i
    → is_statically_valid (nopped k i m.program) ≡ some false

-- What `next` may give: a proposal, the end, where nothing is left, or the panic of the validation of a
-- candidate.
abbrev pub Given : NoppingMinimizer → Next NoppingMinimizer → Type 0
Given m (yielded c m') = Nops m c m'
Given m (exhausted m') =
    (m'.program ≡ m.program) × ((length m.program.instructions ≤ m'.next_index) × NoneLeft m)
Given m panicked =
    (k : ℕ) × (i : Instruction) × CanNop m k i × (is_statically_valid (nopped k i m.program) ≡ none)
Given m out_of_fuel = ⊥

nop_at-nopped : (k : ℕ) (i : Instruction) (p : Program) → nop_at k i p ≡ nopped k i p
unfolding nop_at to_nop
nop_at-nopped k i p = refl

can_nop :
    (m : NoppingMinimizer) (i : Instruction)
    → get_elem? m.program.instructions m.next_index ≡ some i
    → (not (is_noppable i) || is_nop i.operation) ≡ false
    → CanNop m m.next_index i
can_nop m i e s = record {
  not_before = omega arith;
  found = e;
  no_delimiter = λ d. let no = delimited i.inputs i.operation d in ground arith;
  no_nop = λ n. let no = IsNothing-is_nop i.operation n in ground arith;
}

-- What is skipped is no instruction that can be replaced.
skipped_CanNop :
    (m : NoppingMinimizer) (k : ℕ) (i j : Instruction)
    → get_elem? m.program.instructions k ≡ some j
    → (not (is_noppable j) || is_nop j.operation) ≡ true
    → ¬ (CanNop m k i)
skipped_CanNop m k i j e s h =
    let found = h.found in
    let same : i ≡ j = cc in
    let same_op : i.operation ≡ j.operation = ap (λ (x : Instruction). x.operation) same in
    elim (hindered j.inputs j.operation s) [
      | inl d ↦ h.no_delimiter (subst IsDelimiter (sym same_op) d)
      | inr n ↦ h.no_nop (subst IsNothing (sym same_op) n)
    ]

later :
    {m : NoppingMinimizer} {k : ℕ} {i : Instruction}
    → CanNop (record m { next_index = m.next_index + 1 }) k i
    → CanNop m k i
later h = record {
  not_before = (let b = h.not_before in omega arith);
  found = h.found;
  no_delimiter = h.no_delimiter;
  no_nop = h.no_nop;
}

NoneLeft-later :
    (m : NoppingMinimizer)
    → ((i : Instruction)
        → CanNop m m.next_index i
        → is_statically_valid (nopped m.next_index i m.program) ≡ some false)
    → NoneLeft (record m { next_index = m.next_index + 1 })
    → NoneLeft m
NoneLeft-later m here rest k i can = elim (Bool-cases (k == m.next_index)) [
  | inl e ↦
      let same = sym ((==_iff k m.next_index).0 e) in
      subst (λ n. CanNop m n i → is_statically_valid (nopped n i m.program) ≡ some false) same
        (here i) can
  | inr e ↦ rest k i (record {
    not_before = (let b = can.not_before in grind arith);
    found = can.found;
    no_delimiter = can.no_delimiter;
    no_nop = can.no_nop;
  })
]

Given-later :
    (m : NoppingMinimizer) (r : Next NoppingMinimizer)
    → ((i : Instruction)
        → CanNop m m.next_index i
        → is_statically_valid (nopped m.next_index i m.program) ≡ some false)
    → Given (record m { next_index = m.next_index + 1 }) r
    → Given m r
Given-later m (yielded c m') here g = record {
  at = g.at;
  by = g.by;
  can = later g.can;
  proposal = g.proposal;
  valid = g.valid;
  state = g.state;
}
Given-later m (exhausted m') here (same, (past, rest)) = (same, (past, NoneLeft-later m here rest))
Given-later m panicked here (k, i, h, p) = (k, i, later h, p)
Given-later m out_of_fuel here g = g

pub get_elem?-eq-none {ℓ} :
    {A : Type ℓ} (xs : List A) (i : ℕ) → get_elem? xs i ≡ none → length xs ≤ i
get_elem?-eq-none [] i h = omega arith
get_elem?-eq-none (x ∷ xs) zero h = cc
get_elem?-eq-none (x ∷ xs) (suc i) h = omega (arith, get_elem?-eq-none xs i h)

-- Past the last instruction nothing is left.
at_end :
    (m : NoppingMinimizer)
    → get_elem? m.program.instructions m.next_index ≡ none
    → (length m.program.instructions ≤ m.next_index) × NoneLeft m
at_end m e =
    let past = get_elem?-eq-none m.program.instructions m.next_index e in
    (
      past,
      λ k i can.
          let inside = get_elem?-lt-length m.program.instructions k can.found in
          let b = can.not_before in absurd (omega arith),
    )

-- An instruction whose replacement is not valid.
refused :
    (m : NoppingMinimizer) (i j : Instruction) (valid : Bool)
    → get_elem? m.program.instructions m.next_index ≡ some i
    → is_statically_valid (nop_at m.next_index i m.program) ≡ some valid
    → valid ≡ false
    → CanNop m m.next_index j
    → is_statically_valid (nopped m.next_index j m.program) ≡ some false
refused m i j valid e v t can =
    let found = can.found in
    let same : j ≡ i = cc in
    ap (λ x. is_statically_valid (nopped m.next_index x m.program)) same
    ∙ (ap is_statically_valid (sym (nop_at-nopped m.next_index i m.program)) ∙ (v ∙ ap some t))

next_within-Given :
    (fuel : ℕ) (m : NoppingMinimizer)
    → length m.program.instructions ≤ m.next_index + fuel
    → Given m (next_within fuel m)
unfolding next_within
next_within-Given zero m f = elim (Option-cases (get_elem? m.program.instructions m.next_index)) [
  | inl e ↦ let ended = at_end m e in rw (e, next_within) (refl, ended)
  | inr (i, e) ↦
      absurd (let b = get_elem?-lt-length m.program.instructions m.next_index e in omega arith)
]
next_within-Given (suc fuel) m f =
    elim (Option-cases (get_elem? m.program.instructions m.next_index)) [
      | inl e ↦ let ended = at_end m e in rw (e, next_within) (refl, ended)
      | inr (i, e) ↦
          let given =
            next_within-Given fuel (record m { next_index = m.next_index + 1 }) (omega arith) in
          elim (Bool-cases (not (is_noppable i) || is_nop i.operation)) [
            | inl s ↦
                let rest =
                  Given-later m _ (λ j can. absurd (skipped_CanNop m m.next_index j i e s can))
                    given in
                rw (e, next_within, s) rest
            | inr s ↦
                let can = can_nop m i e s in
                let same = nop_at-nopped m.next_index i m.program in
                elim (Option-cases (is_statically_valid (nop_at m.next_index i m.program))) [
                  | inl v ↦
                      let no_answer = ap is_statically_valid (sym same) ∙ v in
                      rw (e, next_within, s, v) (m.next_index, i, can, no_answer)
                  | inr (valid, v) ↦ elim (Bool-cases valid) [
                    | inl t ↦
                        rw (e, next_within, s, v, t)
                          (record {
                            at = m.next_index;
                            by = i;
                            can = can;
                            proposal = same;
                            valid = v ∙ ap some t;
                            state = refl;
                          })
                    | inr t ↦
                        let rest = Given-later m _ (λ j can. refused m i j valid e v t can) given in
                        rw (e, next_within, s, v, t) rest
                  ]
                ]
          ]
    ]

-- `next` proposes the program with one instruction at or after its place, which neither opens nor
-- closes a block and is no nop, replaced by a nop with the same numbers of outputs and no inputs; the
-- proposal is statically valid, and both are remembered; or it ends past the last instruction with
-- the same program, where no such replacement is left that is statically valid; or the validation of
-- such a program panicked. Its fuel is enough.
pub next-Nops : (m : NoppingMinimizer) → Given m (next m)
unfolding next
next-Nops m = next_within-Given (length m.program.instructions) m (omega arith)
