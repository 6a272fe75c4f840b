-- ===== src/Harness/Oracle/Conforms.antt =====
-- When the conformance oracle of crates/stratamoto/src/oracle.rs lets a whole execution pass.
use stratamoto.Base.{
  ℕ, zero, suc, ◌+◌, ◌≡◌, ◌≢◌, ◌↔◌, refl, ap, ◌∙◌, Bool, true, false, List, [], ◌∷◌, get_elem?,
  Option, none, some, map_get, Result, ok, err, panic, subst, arith,
}
use stratamoto.Ir.Variable.{Protocol}
use stratamoto.Ir.Spec.{
  Action, await_setup_response, ClientViolation, CompiledProgram, SetupConnectionSpec,
}
use stratamoto.Harness.Environment.{RoleConfig, Deployment}
use stratamoto.Harness.Runner.{ActionOutcome, Execution}
use stratamoto.Harness.Oracle.{
  Violation, pass, check, is_absent, is_owed, judge_answer, judge_await, judge_action,
  conformance_from, evaluate_conformance,
}
use stratamoto.Harness.Oracle.Allowed.{Allowed, check-Allowed, check-ne-panic}

module _ {E L : Type 0} (D : Deployment E L) (program : CompiledProgram) (x : Execution) where
  -- An answer is owed where the setup is the connection's first and its message violates nothing.
  abbrev pub Owed : ℕ → Bool → Type 0
  Owed id first = (first ≡ true) × (map_get id program.metadata.violations ≡ none)

  owed_iff :
      (id : ℕ) (first : Bool) (o : Option (List ClientViolation))
      → map_get id program.metadata.violations ≡ o
      → (is_owed D program x id first ≡ true) ↔ ((first ≡ true) × (o ≡ none))
  unfolding is_owed is_absent
  owed_iff id true none e = rw (e, is_owed) (λ _. (refl, refl), λ _. refl)
  owed_iff id true (some v) e = rw (e, is_owed) (λ h. cc, λ h. let no = h.1 in cc)
  owed_iff id false o e = (λ h. cc, λ h. let no = h.0 in cc)

  -- `is_owed` decides it.
  pub is_owed-Owed : (id : ℕ) (first : Bool) → (is_owed D program x id first ≡ true) ↔ Owed id first
  is_owed-Owed id first = owed_iff id first (map_get id program.metadata.violations) refl

  -- An await action has an outcome and a setup, and on an opened connection its role is known and
  -- answers as it may where an answer is owed.
  pub record Answers (id connection session : ℕ) (first : Bool) : Type 0 where
    pub outcome : ActionOutcome
    pub spec : SetupConnectionSpec
    pub has_outcome : get_elem? x.outcomes id ≡ some outcome
    pub has_spec : map_get session program.metadata.session_setups ≡ some spec
    pub allowed :
        (role : ℕ)
        → map_get connection x.connection_roles ≡ some role
        → (config : RoleConfig) × (D.role_config role ≡ some config)
          × (Owed id first → Allowed config spec outcome)

  -- Every await action is answered.
  abbrev pub Conforms : Type 0
  Conforms =
      (id connection session : ℕ) (p : Protocol) (first : Bool)
      → get_elem? program.actions id ≡ some (await_setup_response connection session p first)
      → Answers id connection session first

  judge_answer_of :
      (config : RoleConfig) (role : ℕ) (spec : SetupConnectionSpec) (owed : Bool)
      (o : ActionOutcome) (r : Result Violation (Unit {0}))
      → check config spec owed o ≡ r
      → r ≢ panic
      → (judge_answer D program x config role spec owed o ≡ none) ↔ (r ≡ ok tt)
  unfolding judge_answer
  judge_answer_of config role spec owed o (ok _) e n = rw (e, judge_answer) (λ _. refl, λ _. refl)
  judge_answer_of config role spec owed o (err v) e n = rw (e, judge_answer) (λ h. cc, λ h. cc)
  judge_answer_of config role spec owed o panic e n = absurd (n refl)

  judge_answer-Allowed :
      (config : RoleConfig) (role : ℕ) (spec : SetupConnectionSpec) (owed : Bool)
      (o : ActionOutcome)
      → (judge_answer D program x config role spec owed o ≡ none)
        ↔ (owed ≡ true → Allowed config spec o)
  judge_answer-Allowed config role spec owed o =
      let (there, back) =
        judge_answer_of config role spec owed o _ refl (check-ne-panic config spec owed o) in
      let (allowed, passes) = check-Allowed config spec owed o in
      (λ h. allowed (there h), λ h. back (passes h))

  known_role-Answers :
      (id connection session : ℕ) (first : Bool) (o : ActionOutcome) (s : SetupConnectionSpec)
      (role : ℕ)
      → get_elem? x.outcomes id ≡ some o
      → map_get session program.metadata.session_setups ≡ some s
      → map_get connection x.connection_roles ≡ some role
      → (c : Option RoleConfig) → D.role_config role ≡ c
      → (judge_await D program x id connection session first ≡ none)
        ↔ Answers id connection session first
  unfolding judge_await
  known_role-Answers id connection session first o s role eo es er none ec =
      rw (eo, judge_await, es, er, ec)
        (λ h. cc, λ a. let (config, known, _) = a.allowed role er in cc)
  known_role-Answers id connection session first o s role eo es er (some config) ec =
      let (owes, owing) = is_owed-Owed id first in
      let (allows, passes) = judge_answer-Allowed config role s (is_owed D program x id first) o in
      rw (eo, judge_await, es, er, ec)
        (
          λ h. record {
            outcome = o;
            spec = s;
            has_outcome = eo;
            has_spec = es;
            allowed = λ role' g. (
              config,
              (let same : role' ≡ role = cc in ap D.role_config same ∙ ec),
              λ owed. allows h (owing owed),
            );
          },
          λ a. passes (λ owed.
              let (config', known, allowed) = a.allowed role er in
              let same_config : config' ≡ config = cc in
              let same_spec : a.spec ≡ s = (let found = a.has_spec in cc) in
              let same_outcome : a.outcome ≡ o = (let found = a.has_outcome in cc) in
              subst (λ k. Allowed k s o) same_config
                (subst (λ k. Allowed config' k o) same_spec
                  (subst (λ k. Allowed config' a.spec k) same_outcome (allowed (owes owed))))),
        )

  -- What the loop finds of an await action, from what it looks up.
  judge_await-Answers :
      (id connection session : ℕ) (first : Bool)
      → (o : Option ActionOutcome) → get_elem? x.outcomes id ≡ o
      → (s : Option SetupConnectionSpec) → map_get session program.metadata.session_setups ≡ s
      → (r : Option ℕ) → map_get connection x.connection_roles ≡ r
      → (judge_await D program x id connection session first ≡ none)
        ↔ Answers id connection session first
  unfolding judge_await
  judge_await-Answers id connection session first none eo s es r er =
      rw (eo, judge_await) (λ h. cc, λ a. let found = a.has_outcome in cc)
  judge_await-Answers id connection session first (some o) eo none es r er =
      rw (eo, judge_await, es) (λ h. cc, λ a. let found = a.has_spec in cc)
  judge_await-Answers id connection session first (some o) eo (some s) es none er =
      rw (eo, judge_await, es, er)
        (
          λ _. record {
            outcome = o;
            spec = s;
            has_outcome = eo;
            has_spec = es;
            allowed = λ role g. cc;
          },
          λ _. refl,
        )
  judge_await-Answers id connection session first (some o) eo (some s) es (some role) er =
      known_role-Answers id connection session first o s role eo es er (D.role_config role) refl

  judge_action-await :
      (id : ℕ) (a : Action)
      → (judge_action D program x id a ≡ none) ↔ (
          (c i : ℕ) (p : Protocol) (first : Bool)
          → a ≡ await_setup_response c i p first
          → Answers id c i first)
  unfolding judge_action
  judge_action-await id (await_setup_response c i p first) =
      let (there, back) =
        judge_await-Answers id c i first (get_elem? x.outcomes id) refl
          (map_get i program.metadata.session_setups) refl (map_get c x.connection_roles) refl in
      (
        λ h c' i' p' first' e.
            let same_connection : c ≡ c' = cc in
            let same_session : i ≡ i' = cc in
            let same_first : first ≡ first' = cc in
            subst (λ k. Answers id k i' first') same_connection
              (subst (λ k. Answers id c k first') same_session
                (subst (Answers id c i) same_first (there h))),
        λ h. back (h c i p first refl),
      )
  judge_action-await id (Action.connect _ _) = (λ h c i p f e. cc, λ h. refl)
  judge_action-await id (Action.send _ _ _ _ _) = (λ h c i p f e. cc, λ h. refl)
  judge_action-await id (Action.enter_on_setup_success _ _) = (λ h c i p f e. cc, λ h. refl)
  judge_action-await id Action.exit_block = (λ h c i p f e. cc, λ h. refl)
  judge_action-await id (Action.advance_time _) = (λ h c i p f e. cc, λ h. refl)
  judge_action-await id Action.probe = (λ h c i p f e. cc, λ h. refl)

  conformance_turn :
      (id : ℕ) (action : Action) (actions : List Action) (v : Option Violation)
      → judge_action D program x id action ≡ v
      → (conformance_from D program x id (action ∷ actions) ≡ pass)
        ↔ ((v ≡ none) × (conformance_from D program x (suc id) actions ≡ pass))
  unfolding conformance_from
  conformance_turn id action actions none e = rw (e, conformance_from) (λ h. (refl, h), λ h. h.1)
  conformance_turn id action actions (some v) e =
      rw (e, conformance_from) (λ h. cc, λ h. let no = h.0 in cc)

  -- The finding of the loop for an action does not depend on how its index is counted.
  abbrev Unfaulted : ℕ → Action → Type 0
  Unfaulted k a = judge_action D program x k a ≡ none

  consed :
      (id : ℕ) (action : Action) (actions : List Action)
      → Unfaulted id action
      → ((k : ℕ) (a : Action) → get_elem? actions k ≡ some a → Unfaulted (suc id + k) a)
      → (k : ℕ) (a : Action) → get_elem? (action ∷ actions) k ≡ some a
      → Unfaulted (id + k) a
  consed id action actions first rest zero a g =
      let same : action ≡ a = cc in
      subst (λ n. Unfaulted n a) (omega arith) (subst (Unfaulted id) same first)
  consed id action actions first rest (suc k) a g =
      subst (λ n. Unfaulted n a) (omega arith) (rest k a g)

  conformance_from-pass :
      (id : ℕ) (actions : List Action)
      → (conformance_from D program x id actions ≡ pass) ↔ (
          (k : ℕ) (a : Action)
          → get_elem? actions k ≡ some a
          → judge_action D program x (id + k) a ≡ none)
  unfolding conformance_from
  conformance_from-pass id [] = (λ h k a g. cc, λ h. refl)
  conformance_from-pass id (action ∷ actions) =
      let (there, back) = conformance_turn id action actions _ refl in
      let (all, passes) = conformance_from-pass (suc id) actions in
      (
        λ h k. consed id action actions (there h).0 (all (there h).1) k,
        λ h. back (
          subst (λ n. Unfaulted n action) (omega arith) (h 0 action refl),
          passes (λ k a g. subst (λ n. Unfaulted n a) (omega arith) (h (suc k) a g)),
        ),
      )

  -- The conformance oracle passes just where every await action is answered.
  pub evaluate_conformance-Conforms : (evaluate_conformance D program x ≡ pass) ↔ Conforms
  unfolding evaluate_conformance
  evaluate_conformance-Conforms =
      let (there, back) = conformance_from-pass 0 program.actions in
      (
        λ h id c i p first g.
            (judge_action-await id (await_setup_response c i p first)).0
              (subst (λ n. Unfaulted n (await_setup_response c i p first)) (omega arith)
                (there h id _ g))
              c i p first refl,
        λ answers. back (λ k a g.
            subst (λ n. Unfaulted n a) (omega arith)
              ((judge_action-await k a).1
                (λ c i p first e. answers k c i p first (g ∙ ap some e)))),
      )
