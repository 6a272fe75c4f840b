-- ===== src/Ir/Minimizers/Cutting/Candidates.antt =====
-- What `CuttingMinimizer` of crates/stratamoto-ir/src/minimizers/cutting.rs proposes.
use stratamoto.Base.{
  ℕ, zero, suc, ◌+◌, ◌-◌, ◌/◌, ◌≤◌, ◌<◌, ◌≡◌, inl, inr, refl, ap, sym, ◌∙◌, Bool, true, false, ◌&&◌,
  List, [], ◌∷◌, ◌++◌, length, length-append, take, get_elem?, some, ok, leb, ltb, ◌==◌, Bool-cases,
  Option-cases, >>=-eq-ok, subst, arith,
}
use stratamoto.Ir.Instruction.{Program}
use stratamoto.Ir.Builder.{from_prefix, append_all, is_statically_valid}
use stratamoto.Ir.Builder.Validity.{is_statically_valid-ne-none}
use stratamoto.Ir.Builder.Faults.{from_prefix-append, valid-builder}
use stratamoto.Ir.Renumber.{dropped, without}
use stratamoto.Ir.Renumber.Closed.{from_prefix-Closed}
use stratamoto.Ir.Renumber.Cut.{without-cut}
use stratamoto.Ir.Minimizers.{
  Next, yielded, exhausted, panicked, out_of_fuel, mark, mark_from, try_without,
}
use stratamoto.Ir.Minimizers.Cutting.{CuttingMinimizer, cut, next_within}

get_elem?-mark_from :
    (index begin end n k : ℕ)
    → k < n
    → get_elem? (mark_from index begin end n) k
      ≡ some (leb begin (index + k) && ltb (index + k) end)
get_elem?-mark_from index begin end zero k h = absurd (omega arith)
get_elem?-mark_from index begin end (suc n) zero h =
    ap (λ m. some (leb begin m && ltb m end)) (let q : index ≡ index + 0 = omega arith in q)
get_elem?-mark_from index begin end (suc n) (suc k) h =
    get_elem?-mark_from (index + 1) begin end n k (omega arith)
    ∙ ap (λ m. some (leb begin m && ltb m end))
        (let q : index + 1 + k ≡ index + suc k = omega arith in q)

dropped-mark :
    (begin end n k : ℕ) → k < n → dropped (mark begin end n) k ≡ (leb begin k && ltb k end)
unfolding dropped mark
dropped-mark begin end n k h =
    rw (get_elem?-mark_from 0 begin end n k h, dropped)
      (ap (λ m. leb begin m && ltb m end) (let q : 0 + k ≡ k = omega arith in q))

outside : (begin end k : ℕ) → k < begin → (leb begin k && ltb k end) ≡ false
outside begin end k h = ground arith

inside : (begin end k : ℕ) → begin ≤ k → k < end → (leb begin k && ltb k end) ≡ true
inside begin end k h l = ground arith

-- A list splits after any number of its elements.
pub split_at {ℓ} :
    {A : Type ℓ} (k : ℕ) (xs : List A)
    → k ≤ length xs
    → (ys : List A) × (xs ≡ take k xs ++ ys) × (length (take k xs) ≡ k)
split_at zero xs h = (xs, refl, refl)
split_at (suc k) [] h = absurd (omega arith)
split_at (suc k) (x ∷ xs) h =
    let (ys, e, l) = split_at k xs (omega arith) in (ys, ap (λ zs. x ∷ zs) e, ap suc l)

-- The program without its last `n` instructions.
abbrev pub without_last : ℕ → Program → Program
without_last n p = record p { instructions = take (length p.instructions - n) p.instructions }

try_without-eq-some :
    (remove : List Bool) (p : Program) {q : Program} {v : Bool}
    → without remove p ≡ some q
    → is_statically_valid q ≡ some v
    → try_without remove p ≡ some (q, v)
unfolding try_without
try_without-eq-some remove p w s = rw (w, try_without) (rw s refl)

-- One round on a statically valid program proposes the program without the run at its end, and
-- finds out whether it is valid.
pub cut-eq-some :
    (m : CuttingMinimizer)
    → is_statically_valid m.program ≡ some true
    → m.length ≤ length m.program.instructions
    → (v : Bool) × (is_statically_valid (without_last m.length m.program) ≡ some v)
      × (cut m ≡ some (without_last m.length m.program, v))
unfolding cut
cut-eq-some m h l =
    let p = m.program in
    let total = length p.instructions in
    let k = total - m.length in
    let (b, f, _, _) = valid-builder p h in
    let (ys, e, lx) = split_at k p.instructions (omega arith) in
    let xs = take k p.instructions in
    let f' = subst (λ is. from_prefix p.context is ≡ ok b) e f in
    let (b', g, _) =
      >>=-eq-ok (from_prefix p.context xs) (append_all ys)
        (sym (from_prefix-append p.context xs ys) ∙ f') in
    let whole : total ≡ length xs + length ys = ap length e ∙ length-append xs ys in
    let remove = mark k total total in
    let w : without remove p ≡ some (without_last m.length p) =
      without-cut p remove xs ys e (from_prefix-Closed p.context xs g)
        (λ j lt.
          dropped-mark k total total (0 + j) (omega arith) ∙ outside k total (0 + j) (omega arith))
        (λ j lt.
          dropped-mark k total total (0 + length xs + j) (omega arith)
          ∙ inside k total (0 + length xs + j) (omega arith) (omega arith)) in
    elim (Option-cases (is_statically_valid (without_last m.length p))) [
      | inl n ↦ absurd (is_statically_valid-ne-none p.context xs g n)
      | inr (v, s) ↦ (
        v,
        s,
        let fits : leb m.length total ≡ true = ground arith in
            rw fits (try_without-eq-some remove p w s),
      )
    ]

-- A proposal: the program without a run of at least one instruction at its end, which is
-- statically valid.
pub record Proposes (m : CuttingMinimizer) (c : Program) (m' : CuttingMinimizer) : Type 0 where
  pub run : ℕ
  pub some_run : 0 < run
  pub within : run ≤ m.length
  pub proposal : c ≡ without_last run m.program
  pub valid : is_statically_valid c ≡ some true
  pub state : m' ≡ record m { candidate = some c; length = run }

-- What an iterator's `next` may give: a proposal, or the end with no run left to try.
abbrev pub Given : CuttingMinimizer → Next CuttingMinimizer → Type 0
Given m (yielded c m') = Proposes m c m'
Given m (exhausted m') = m' ≡ record m { length = 0 }
Given m panicked = ⊥
Given m out_of_fuel = ⊥

Given-half :
    (m : CuttingMinimizer) (r : Next CuttingMinimizer)
    → Given (record m { length = m.length / 2 }) r
    → Given m r
Given-half m (yielded c m') g = record {
  run = g.run;
  some_run = g.some_run;
  within = (let h = g.within in omega arith);
  proposal = g.proposal;
  valid = g.valid;
  state = g.state;
}
Given-half m (exhausted m') g = g
Given-half m panicked g = g
Given-half m out_of_fuel g = g

done : (m : CuttingMinimizer) → m.length ≡ 0 → Given m (next_within 0 m)
unfolding next_within
done m z = let t : (m.length == 0) ≡ true = ground arith in rw t (λ i. record m { length = z i })

pub next_within-Given :
    (fuel : ℕ) (m : CuttingMinimizer)
    → m.length ≤ fuel
    → is_statically_valid m.program ≡ some true
    → m.length ≤ length m.program.instructions
    → Given m (next_within fuel m)
unfolding next_within
next_within-Given zero m f h l = done m (omega arith)
next_within-Given (suc fuel) m f h l = elim (Bool-cases (m.length == 0)) [
  | inl z ↦ rw z (λ i. record m { length = (let q : m.length ≡ 0 = ground arith in q) i })
  | inr nz ↦
      let (v, s, e) = cut-eq-some m h l in
      let e' : (w : Bool) → v ≡ w → cut m ≡ some (without_last m.length m.program, w) =
        λ w q. e ∙ ap (λ u. some (without_last m.length m.program, u)) q in
      elim (Bool-cases v) [
        | inl t ↦
            rw (nz, e' true t)
              (record {
                run = m.length;
                some_run = ground arith;
                within = omega arith;
                proposal = refl;
                valid = s ∙ ap some t;
                state = refl;
              })
        | inr t ↦
            rw (nz, e' false t)
              (Given-half m _ (
                next_within-Given fuel (record m { length = m.length / 2 }) (ground arith) h
                  (ground arith)))
      ]
]
