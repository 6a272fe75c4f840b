-- ===== src/Harness/Oracle/Integrity.antt =====
-- When the integrity oracle of crates/stratamoto/src/oracle.rs lets an execution pass.
use stratamoto.Base.{
  ℕ, zero, suc, ◌≡◌, ◌↔◌, refl, inl, inr, true, List, [], ◌∷◌, get_elem?, some, subst, Bool-cases,
}
use stratamoto.Ir.Spec.{CompiledProgram}
use stratamoto.Harness.Runner.{
  ActionOutcome, completed, timed_out, transport_closed, transport_error, skipped, harness_error,
  Execution, is_total,
}
use stratamoto.Harness.Oracle.{pass, integrity_from, evaluate_integrity}

-- The failures of the harness.
abbrev pub IsHarnessError : ActionOutcome → Type 0
IsHarnessError (harness_error _) = Unit
IsHarnessError _ = ⊥

-- A run that the harness carried out: an outcome for each action, none of them a failure of the harness.
pub record Integral (program : CompiledProgram) (x : Execution) : Type 0 where
  pub total : is_total program x ≡ true
  pub carried_out :
      (k : ℕ) (o : ActionOutcome) → get_elem? x.outcomes k ≡ some o → ¬ (IsHarnessError o)

-- No outcome is a failure of the harness.
abbrev Unfailing : List ActionOutcome → Type 0
Unfailing os = (k : ℕ) (o : ActionOutcome) → get_elem? os k ≡ some o → ¬ (IsHarnessError o)

Unfailing-cons :
    (o : ActionOutcome) (os : List ActionOutcome)
    → ¬ (IsHarnessError o)
    → Unfailing os
    → Unfailing (o ∷ os)
Unfailing-cons o os h hs zero x g =
    let same : o ≡ x = cc in subst (λ y. ¬ (IsHarnessError y)) same h
Unfailing-cons o os h hs (suc k) x g = hs k x g

carried_on :
    {P : Type 0} (o : ActionOutcome) (os : List ActionOutcome)
    → P ↔ Unfailing os
    → ¬ (IsHarnessError o)
    → P ↔ Unfailing (o ∷ os)
carried_on o os (there, back) h =
    (λ p. Unfailing-cons o os h (there p), λ u. back (λ k x g. u (suc k) x g))

integrity_from-pass :
    (program : CompiledProgram) (id : ℕ) (os : List ActionOutcome)
    → (integrity_from program id os ≡ pass)
      ↔ ((k : ℕ) (o : ActionOutcome) → get_elem? os k ≡ some o → ¬ (IsHarnessError o))
unfolding integrity_from
integrity_from-pass program id [] = (λ h k o g. cc, λ h. refl)
integrity_from-pass program id (harness_error e ∷ os) = (λ h. cc, λ h. absurd (h 0 _ refl tt))
integrity_from-pass program id (completed r ∷ os) =
    carried_on _ os (integrity_from-pass program (suc id) os) (λ h. h)
integrity_from-pass program id (timed_out ∷ os) =
    carried_on _ os (integrity_from-pass program (suc id) os) (λ h. h)
integrity_from-pass program id (transport_closed ∷ os) =
    carried_on _ os (integrity_from-pass program (suc id) os) (λ h. h)
integrity_from-pass program id (transport_error e ∷ os) =
    carried_on _ os (integrity_from-pass program (suc id) os) (λ h. h)
integrity_from-pass program id (skipped u ∷ os) =
    carried_on _ os (integrity_from-pass program (suc id) os) (λ h. h)

-- The integrity oracle passes just where the harness carried out the run.
pub evaluate_integrity-Integral :
    (program : CompiledProgram) (x : Execution)
    → (evaluate_integrity program x ≡ pass) ↔ Integral program x
unfolding evaluate_integrity
evaluate_integrity-Integral program x =
    let (there, back) = integrity_from-pass program 0 x.outcomes in
    elim (Bool-cases (is_total program x)) [
      | inl t ↦ rw t (λ h. record { total = t; carried_out = there h }, λ i. back i.carried_out)
      | inr f ↦ rw f (λ h. cc, λ i. let t = i.total in cc)
    ]
