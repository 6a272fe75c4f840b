-- ===== src/Harness/Runner/Loop.antt =====
-- The loop of crates/stratamoto/src/runner.rs over the actions of a program.
use stratamoto.Base.{
  ℕ, zero, suc, ◌+◌, ◌-◌, ◌≤◌, ◌<◌, ◌≡◌, inl, inr, refl, ap, sym, ◌∙◌, Bool, true, false, List, [],
  ◌∷◌, ◌++◌, length, get_elem?, replicate, Option, none, some, leb, Returns, returned, Returns-bind,
  subst, arith, get_elem?-lt-length, get_elem?-append_cases, get_elem?-replicate, get_elem?-none,
  if◌then◌else◌, length-append, length-replicate,
}
use stratamoto.Ir.Spec.{Action, enter_on_setup_success}
use stratamoto.Ir.Compiler.Jumps.Compiled.{AllClosed}
use stratamoto.Harness.Environment.{Deployment, DeploymentLaws}
use stratamoto.Harness.Runner.{
  ActionOutcome, skipped, setup_done, Prerequisite, Runner, is_established, unmet_prerequisite,
  push_outcomes, skip_outcomes, min, run_from, new_runner,
}
use stratamoto.Harness.Runner.Fits.{Fits, in_skipped_block, AllFit}
use stratamoto.Harness.Runner.Actions.{Performed, perform-Returns}

-- Before the action at `next`, each earlier one has its outcome.
pub record Upto (actions : List Action) (next : ℕ) (outcomes : List ActionOutcome) : Type 0 where
  pub counted : length outcomes ≡ next
  pub within : next ≤ length actions
  pub fit : AllFit actions outcomes

unmet_enter :
    {u : Prerequisite} {end : ℕ} (session at_end : ℕ) (b : Bool)
    → if◌then◌else◌ {A = Option (Prerequisite × ℕ)} b none (some (setup_done session, at_end))
      ≡ some (u, end)
    → (i : ℕ) × (enter_on_setup_success session at_end ≡ enter_on_setup_success i end)
      × (u ≡ setup_done i)
unmet_enter session at_end true h = cc
unmet_enter {u} {end} session at_end false h =
    let same : ◌≡◌ {A = Prerequisite × ℕ} (setup_done session, at_end) (u, end) = cc in
    (session, ap (λ x. enter_on_setup_success session (x.1)) same, sym (ap (λ x. x.0) same))

-- Only an enter action has a prerequisite, on its session, and its block ends where it says.
unmet-IsEnter :
    {E L : Type 0} (a : Action) (r : Runner E L) (u : Prerequisite) (end : ℕ)
    → unmet_prerequisite a r ≡ some (u, end)
    → (session : ℕ) × (a ≡ enter_on_setup_success session end) × (u ≡ setup_done session)
unfolding unmet_prerequisite
unmet-IsEnter (enter_on_setup_success session at_end) r u end h =
    unmet_enter session at_end (is_established session r) h
unmet-IsEnter (Action.connect _ _) r u end h = cc
unmet-IsEnter (Action.send _ _ _ _ _) r u end h = cc
unmet-IsEnter (Action.await_setup_response _ _ _ _) r u end h = cc
unmet-IsEnter Action.exit_block r u end h = cc
unmet-IsEnter (Action.advance_time _) r u end h = cc
unmet-IsEnter Action.probe r u end h = cc

Upto-append :
    {actions : List Action} {next : ℕ} {outcomes : List ActionOutcome} (more : List ActionOutcome)
    → Upto actions next outcomes
    → next + length more ≤ length actions
    → ((j : ℕ) (a : Action) (o : ActionOutcome)
        → get_elem? actions (next + j) ≡ some a
        → get_elem? more j ≡ some o
        → Fits a o)
    → Upto actions (next + length more) (outcomes ++ more)
Upto-append {actions} {next} {outcomes} more u le fits = record {
  counted = length-append outcomes more ∙ ap (λ n. n + length more) u.counted;
  within = le;
  fit = λ k a o ga go. elim (get_elem?-append_cases outcomes more k go) [
    | inl g ↦ u.fit k a o ga g
    | inr (j, same, g) ↦
        fits j a o
          (let at : k ≡ next + j = same ∙ ap (λ n. n + j) u.counted in
            subst (λ n. get_elem? actions n ≡ some a) at ga)
          g
  ];
}

one_outcome :
    (actions : List Action) (next : ℕ) {a : Action} {o : ActionOutcome}
    → get_elem? actions next ≡ some a
    → Fits a o
    → (j : ℕ) (b : Action) (x : ActionOutcome) → get_elem? actions (next + j) ≡ some b
    → get_elem? (o ∷ []) j ≡ some x
    → Fits b x
one_outcome actions next {a} {o} g fits zero b x gb gx =
    let at : get_elem? actions next ≡ some b =
      subst (λ k. get_elem? actions k ≡ some b) (omega arith) gb in
    let b_is_a : b ≡ a = cc in
    let x_is_o : x ≡ o = cc in
    subst (λ y. Fits b y) (sym x_is_o) (subst (λ y. Fits y o) (sym b_is_a) fits)
one_outcome actions next g fits (suc j) b x gb gx = cc

Upto-end :
    (actions : List Action) (next : ℕ) {outcomes : List ActionOutcome}
    → length actions ≤ next
    → Upto actions next outcomes
    → Upto actions (length actions) outcomes
Upto-end actions next {outcomes} h u =
    let same : next ≡ length actions = let w = u.within in omega arith in
    subst (λ k. Upto actions k outcomes) same u

min-le : (a b : ℕ) → a ≤ b → min a b ≡ a
unfolding min
min-le a b h = ground arith

module _ {E L : Type 0} (D : Deployment E L) (laws : DeploymentLaws D) (budget : E → ℕ)
    (enough : (e : E) → laws.to_come e < budget e) (actions : List Action)
    (closed : AllClosed actions) where
  abbrev Carried : Runner E L → Type 0
  Carried r = Upto actions (length actions) r.execution.outcomes

  -- What a loop's later turns do from the action at a later index.
  abbrev Later : ℕ → ℕ → Type 0
  Later fuel next =
      (n : ℕ) (r : Runner E L)
      → next < n
      → Upto actions n r.execution.outcomes
      → Returns Carried (run_from D budget fuel actions n r)

  performed-Upto :
      (next : ℕ) (r r' : Runner E L) (a : Action) (o : ActionOutcome)
      → get_elem? actions next ≡ some a
      → Upto actions next r.execution.outcomes
      → Performed a r (o, r')
      → Upto actions (next + 1) (r'.execution.outcomes ++ o ∷ [])
  performed-Upto next r r' a o g u (fits, kept) =
      subst (λ os. Upto actions (next + 1) (os ++ o ∷ [])) (sym kept)
        (Upto-append (o ∷ []) u (let lt = get_elem?-lt-length actions next g in omega arith)
          (one_outcome actions next g fits))

  skipped-Upto :
      (next session end : ℕ) (outcomes : List ActionOutcome)
      → get_elem? actions next ≡ some (enter_on_setup_success session end)
      → Upto actions next outcomes
      → let last = min end (length actions - 1) in
        (next < last + 1)
        × Upto actions (last + 1) (outcomes ++ skip_outcomes next last (setup_done session))
  unfolding skip_outcomes
  skipped-Upto next session end outcomes g u =
      let block = closed next session end g in
      let inside : end < length actions = get_elem?-lt-length actions end block.exits in
      let after : next < end = block.after in
      let last : min end (length actions - 1) ≡ end =
        min-le end (length actions - 1) (omega arith) in
      let n = end + 1 - next in
      let counted : next + length (replicate n (skipped (setup_done session))) ≡ end + 1 =
        ap (λ k. next + k) (length-replicate n (skipped (setup_done session))) ∙ omega arith in
      subst
        (λ k.
          (next < k + 1)
          × Upto actions (k + 1)
              (outcomes ++ replicate (k + 1 - next) (skipped (setup_done session))))
        (sym last)
        (
          omega arith,
          subst (λ k. Upto actions k (outcomes ++ replicate n (skipped (setup_done session))))
              counted
              (Upto-append (replicate n (skipped (setup_done session))) u (omega arith)
                (λ j a o _ go.
                  subst (Fits a) (sym (get_elem?-replicate n _ j go)) (in_skipped_block session))),
        )

  step-Returns :
      (fuel next : ℕ) (r : Runner E L) (a : Action) (x : Option (Prerequisite × ℕ))
      → get_elem? actions next ≡ some a
      → unmet_prerequisite a r ≡ x
      → Upto actions next r.execution.outcomes
      → Later fuel next
      → Returns Carried (run_from D budget (suc fuel) actions next r)
  unfolding run_from push_outcomes
  step-Returns fuel next r a none g p u later =
      rw (g, run_from, p)
        (Returns-bind (perform-Returns D laws budget enough a r) (λ out done.
          later (next + 1) _ (omega arith) (performed-Upto next r out.1 a out.0 g u done)))
  step-Returns fuel next r a (some (unmet, end)) g p u later =
      let (session, enter, done) = unmet-IsEnter a r unmet end p in
      let (more, upto) = skipped-Upto next session end r.execution.outcomes (g ∙ ap some enter) u in
      rw (g, run_from, p, done) (later _ _ more upto)

  turn-Returns :
      (fuel next : ℕ) (r : Runner E L) (a : Option Action)
      → get_elem? actions next ≡ a
      → Upto actions next r.execution.outcomes
      → Later fuel next
      → Returns Carried (run_from D budget (suc fuel) actions next r)
  unfolding run_from
  turn-Returns fuel next r none g u later =
      rw (g, run_from) (returned (Upto-end actions next (get_elem?-none actions next g) u))
  turn-Returns fuel next r (some a) g u later =
      step-Returns fuel next r a (unmet_prerequisite a r) g refl u later

  run_from-Returns :
      (fuel next : ℕ) (r : Runner E L)
      → Upto actions next r.execution.outcomes
      → length actions ≤ next + fuel
      → Returns Carried (run_from D budget fuel actions next r)
  unfolding run_from
  run_from-Returns zero next r u le =
      let done : leb (length actions) next ≡ true = grind arith in
      rw done (returned (Upto-end actions next (omega arith) u))
  run_from-Returns (suc fuel) next r u le =
      turn-Returns fuel next r (get_elem? actions next) refl u
        (λ n r' lt u'. run_from-Returns fuel n r' u' (omega arith))

  -- A run of actions whose blocks are closed ends, with an outcome that fits for each of them.
  pub run_actions-Returns :
      (e : E) → Returns Carried (run_from D budget (length actions) actions 0 (new_runner e))
  run_actions-Returns e =
      run_from-Returns (length actions) 0 (new_runner e)
        (record { counted = refl; within = omega arith; fit = λ k a o ga go. cc }) (omega arith)
