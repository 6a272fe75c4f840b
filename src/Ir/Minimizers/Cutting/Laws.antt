-- ===== src/Ir/Minimizers/Cutting/Laws.antt =====
-- `CuttingMinimizer` of crates/stratamoto-ir/src/minimizers/cutting.rs keeps what its users rely on.
use stratamoto.Base.{
  ℕ, zero, suc, ◌==◌, ◌+◌, ◌-◌, ◌/◌, ◌≤◌, ◌<◌, ◌≡◌, refl, ap, sym, ◌∙◌, true, false, length, Option,
  some, none, subst, arith,
}
use stratamoto.Ir.Instruction.{Program}
use stratamoto.Ir.Builder.{is_statically_valid}
use stratamoto.Ir.Minimizers.{
  Next, yielded, exhausted, panicked, out_of_fuel, MinimizerLaws, Proposal,
}
use stratamoto.Ir.Minimizers.Cutting.{
  CuttingMinimizer, cutting, cut, next_within, new, next, success, failure, min,
}
use stratamoto.Ir.Minimizers.Cutting.Candidates.{
  Proposes, Given, next_within-Given, without_last, split_at, cut-eq-some,
}

-- The program is statically valid, and no shorter than the run to cut.
pub record CanCut (m : CuttingMinimizer) : Type 0 where
  pub valid : is_statically_valid m.program ≡ some true
  pub fits : m.length ≤ length m.program.instructions

abbrev pub left : CuttingMinimizer → ℕ
left m = length m.program.instructions + m.length

-- When the current program is statically valid and the run is no longer than it, `next` proposes
-- the program without a run of at least one instruction and at most that run at its end, which is
-- statically valid, and remembers both; or it ends with no run left. It does not panic, and its
-- fuel is enough.
pub next-Given : (m : CuttingMinimizer) → CanCut m → Given m (next m)
unfolding next
next-Given m h = next_within-Given m.length m (omega arith) h.valid h.fits

pub without_last-length :
    (n : ℕ) (p : Program) → length (without_last n p).instructions ≡ length p.instructions - n
without_last-length n p =
    let (_, _, e) = split_at (length p.instructions - n) p.instructions (omega arith) in e

min-le : (a b : ℕ) → (min a b ≤ a) × (min a b ≤ b)
unfolding min
min-le a b = ground arith

Proposes-Proposal :
    (m : CuttingMinimizer) (c : Program) (m' : CuttingMinimizer)
    → CanCut m
    → Proposes m c m'
    → Proposal cutting CanCut left m (yielded c m')
unfolding success failure
Proposes-Proposal m c m' h g =
    let cut_length =
      ap (λ (q : Program). length q.instructions) g.proposal
      ∙ without_last-length g.run m.program in
    let (less, half) = min-le g.run (length c.instructions / 2) in
    let won : success m'
        ≡ record { program = c; candidate = none; length = min g.run (length c.instructions / 2) } =
      ap success g.state in
    let lost : failure m' ≡ record m { candidate = none; length = g.run / 2 } =
      ap failure g.state in
    let fits = h.fits in
    let within = g.within in
    let some_run = g.some_run in
    (
      g.valid,
      (
        (
          subst CanCut (sym won) (record { valid = g.valid; fits = omega arith }),
          subst (λ n. left n < left m) (sym won) (omega arith),
        ),
        (
          (
            subst CanCut (sym lost) (record { valid = h.valid; fits = omega arith }),
            subst (λ n. left n < left m) (sym lost) (omega arith),
          ),
          (
            ap (λ (m : CuttingMinimizer). m.program) won,
            ap (λ (m : CuttingMinimizer). m.program) lost,
          ),
        ),
      ),
    )

pub new-CanCut : (p : Program) → is_statically_valid p ≡ some true → CanCut (new p)
unfolding new
new-CanCut p h = record { valid = h; fits = omega arith }

pub next-Proposal :
    (m : CuttingMinimizer) (r : Next CuttingMinimizer)
    → CanCut m
    → Given m r
    → Proposal cutting CanCut left m r
next-Proposal m (yielded c m') h g = Proposes-Proposal m c m' h g
next-Proposal m (exhausted m') h g = ap (λ (m : CuttingMinimizer). m.program) g
next-Proposal m panicked h g = g
next-Proposal m out_of_fuel h g = g

pub current-new_cutting : (p : Program) → (new p).program ≡ p
unfolding new
current-new_cutting p = refl

unfoldable pub cutting_laws : MinimizerLaws cutting
cutting_laws = record {
  Ready = CanCut;
  measure = left;
  new-Ready = new-CanCut;
  current-new = current-new_cutting;
  next-Ready = λ m h. next-Proposal m (next m) h (next-Given m h);
}

repeats :
    (r : ℕ) (p : Program) (o : Option Program)
    → is_statically_valid p ≡ some true
    → suc r ≤ length p.instructions
    → is_statically_valid (without_last (suc r) p) ≡ some true
    → next (record { program = p; candidate = o; length = suc r })
      ≡ yielded
          (without_last (suc r) p)
          (record { program = p; candidate = some (without_last (suc r) p); length = suc r })
unfolding next next_within
repeats r p o h l v =
    let m : CuttingMinimizer = record { program = p; candidate = o; length = suc r } in
    let (w, s, e) = cut-eq-some m h l in
    let t : w ≡ true = (let q : some w ≡ some true = sym s ∙ v in cc) in
    let e' : cut m ≡ some (without_last (suc r) p, true) =
      e ∙ ap (λ u. some (without_last (suc r) p, u)) t in
    let z : (suc r == 0) ≡ false = ground arith in rw (z, e') refl

repeats_run :
    (n : ℕ) (p : Program) (o : Option Program)
    → 0 < n
    → is_statically_valid p ≡ some true
    → n ≤ length p.instructions
    → is_statically_valid (without_last n p) ≡ some true
    → next (record { program = p; candidate = o; length = n })
      ≡ yielded
          (without_last n p)
          (record { program = p; candidate = some (without_last n p); length = n })
repeats_run zero p o z h l v = absurd (omega arith)
repeats_run (suc r) p o z h l v = repeats r p o h l v

-- Without a report, the minimizer proposes the same program again.
pub next-again :
    (m : CuttingMinimizer) (c : Program) (m' : CuttingMinimizer)
    → CanCut m
    → Proposes m c m'
    → next m' ≡ yielded c m'
next-again m c m' h g =
    let within = g.within in
    let fits = h.fits in
    let again =
      repeats_run g.run m.program (some c) g.some_run h.valid (omega arith)
        (ap is_statically_valid (sym g.proposal) ∙ g.valid) in
    ap next g.state
    ∙ again
    ∙ ap (λ q. yielded q (record m { candidate = some q; length = g.run })) (sym g.proposal)
    ∙ ap (yielded c) (sym g.state)
