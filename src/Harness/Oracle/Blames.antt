-- ===== src/Harness/Oracle/Blames.antt =====
-- What the conformance oracle of crates/stratamoto/src/oracle.rs finds in the run of a compiled program.
use stratamoto.Base.{
  ℕ, suc, ◌+◌, ◌≤◌, ◌≡◌, refl, Bool, true, List, [], ◌∷◌, length, get_elem?, get_elem?-exists, ◌∙◌,
  ap, Option, none, some, map_get, false, Result, ok, err, panic, subst, arith, All, ==_iff,
}
use stratamoto.Ir.Variable.{Protocol}
use stratamoto.Ir.Instruction.{Program}
use stratamoto.Ir.Spec.{
  Action, connect, send, await_setup_response, enter_on_setup_success, exit_block, advance_time,
  probe, CompiledProgram, SetupConnectionSpec, Wire,
}
use stratamoto.Ir.Compiler.{compile}
use stratamoto.Ir.Compiler.Jumps.{Known}
use stratamoto.Ir.Compiler.Jumps.Setups.{compile-AllKnown}
use stratamoto.Harness.Environment.{RoleConfig, Deployment}
use stratamoto.Harness.Runner.{ActionOutcome, Execution, is_total}
use stratamoto.Harness.Oracle.Allowed.{Allowed, check-Allowed}
use stratamoto.Harness.Oracle.Conforms.{is_owed-Owed}
use stratamoto.Harness.Oracle.{
  Violation, misanswered, unknown_role, fail, check, is_owed, judge_answer, judge_await,
  judge_action, conformance_from, evaluate_conformance,
}

-- What is found of an await action: the role behind its connection is not known; or the setup is the
-- first on its connection, its message violates nothing, and the role answered as it may not.
pub data OnRole {E L : Type 0} (D : Deployment E L) (program : CompiledProgram) (x : Execution)
    : Violation → Type 0 where
  not_known :
      (id connection session role : ℕ) (p : Protocol) (first : Bool)
      → get_elem? program.actions id ≡ some (await_setup_response connection session p first)
      → map_get connection x.connection_roles ≡ some role
      → D.role_config role ≡ none
      → OnRole D program x (unknown_role session role)
  answered_wrongly :
      (id connection session role : ℕ) (p : Protocol) (config : RoleConfig)
      (spec : SetupConnectionSpec) (o : ActionOutcome) (why : Violation)
      → get_elem? program.actions id ≡ some (await_setup_response connection session p true)
      → get_elem? x.outcomes id ≡ some o
      → map_get session program.metadata.session_setups ≡ some spec
      → map_get connection x.connection_roles ≡ some role
      → D.role_config role ≡ some config
      → map_get id program.metadata.violations ≡ none
      → ¬ (Allowed config spec o)
      → OnRole D program x (misanswered role o spec why)

-- What the check refuses is owed and not allowed.
check-eq-err :
    (config : RoleConfig) (spec : SetupConnectionSpec) (owed : Bool) (o : ActionOutcome)
    (y : Violation)
    → check config spec owed o ≡ err y
    → (owed ≡ true) × ¬ (Allowed config spec o)
check-eq-err config spec true o y h =
    (refl, λ a. let passes = (check-Allowed config spec true o).1 (λ _. a) in cc)
check-eq-err config spec false o y h = absurd (
    let passes =
      (check-Allowed config spec false o).1 (λ t. absurd (let no : false ≡ true = t in cc)) in
    cc)

module _ {E L : Type 0} (D : Deployment E L) (program : CompiledProgram) (x : Execution) where
  -- an await action on an opened connection, with its outcome and its setup
  record Awaited (id connection session : ℕ) (p : Protocol) (first : Bool) (o : ActionOutcome)
      (s : SetupConnectionSpec) : Type 0 where
    at : get_elem? program.actions id ≡ some (await_setup_response connection session p first)
    outcome : get_elem? x.outcomes id ≡ some o
    setup : map_get session program.metadata.session_setups ≡ some s

  refused-OnRole :
      (id connection session role : ℕ) (p : Protocol) (first : Bool) (config : RoleConfig)
      (o : ActionOutcome) (s : SetupConnectionSpec) (y : Violation)
      → Awaited id connection session p first o s
      → map_get connection x.connection_roles ≡ some role
      → D.role_config role ≡ some config
      → check config s (is_owed D program x id first) o ≡ err y
      → OnRole D program x (misanswered role o s y)
  refused-OnRole id connection session role p first config o s y a er ec e =
      let (owed, not_allowed) = check-eq-err config s (is_owed D program x id first) o y e in
      let (is_first, nothing) = (is_owed-Owed D program x id first).0 owed in
      answered_wrongly id connection session role p config s o y
        (a.at ∙ ap (λ b. some (await_setup_response connection session p b)) is_first) a.outcome
        a.setup er ec nothing not_allowed

  checked-OnRole :
      (id connection session role : ℕ) (p : Protocol) (first : Bool) (config : RoleConfig)
      (o : ActionOutcome) (s : SetupConnectionSpec) (r : Result Violation (Unit {0}))
      (v : Violation)
      → Awaited id connection session p first o s
      → map_get connection x.connection_roles ≡ some role
      → D.role_config role ≡ some config
      → check config s (is_owed D program x id first) o ≡ r
      → judge_answer D program x config role s (is_owed D program x id first) o ≡ some v
      → OnRole D program x v
  unfolding judge_answer
  checked-OnRole id connection session role p first config o s (ok _) v a er ec e h =
      let no = (rw (e, judge_answer) at h) in cc
  checked-OnRole id connection session role p first config o s panic v a er ec e h =
      let no = (rw (e, judge_answer) at h) in cc
  checked-OnRole id connection session role p first config o s (err y) v a er ec e h =
      let found = (rw (e, judge_answer) at h) in
      let same : misanswered role o s y ≡ v = cc in
      subst (OnRole D program x) same
        (refused-OnRole id connection session role p first config o s y a er ec e)

  known_role-OnRole :
      (id connection session role : ℕ) (p : Protocol) (first : Bool) (o : ActionOutcome)
      (s : SetupConnectionSpec) (v : Violation)
      → Awaited id connection session p first o s
      → map_get connection x.connection_roles ≡ some role
      → (c : Option RoleConfig) → D.role_config role ≡ c
      → judge_await D program x id connection session first ≡ some v
      → OnRole D program x v
  unfolding judge_await
  known_role-OnRole id connection session role p first o s v a er none ec h =
      let found = (rw (a.outcome, judge_await, a.setup, er, ec) at h) in
      let same : unknown_role session role ≡ v = cc in
      subst (OnRole D program x) same (not_known id connection session role p first a.at er ec)
  known_role-OnRole id connection session role p first o s v a er (some config) ec h =
      let found = (rw (a.outcome, judge_await, a.setup, er, ec) at h) in
      checked-OnRole id connection session role p first config o s _ v a er ec refl found

  judge_await-OnRole :
      (id connection session : ℕ) (p : Protocol) (first : Bool) (o : ActionOutcome)
      (s : SetupConnectionSpec) (v : Violation)
      → Awaited id connection session p first o s
      → (r : Option ℕ) → map_get connection x.connection_roles ≡ r
      → judge_await D program x id connection session first ≡ some v
      → OnRole D program x v
  unfolding judge_await
  judge_await-OnRole id connection session p first o s v a none er h =
      let no = (rw (a.outcome, judge_await, a.setup, er) at h) in cc
  judge_await-OnRole id connection session p first o s v a (some role) er h =
      known_role-OnRole id connection session role p first o s v a er (D.role_config role) refl h

  judge_action-OnRole :
      (id : ℕ) (a : Action) (o : ActionOutcome) (v : Violation)
      → get_elem? program.actions id ≡ some a
      → get_elem? x.outcomes id ≡ some o
      → Known program.metadata.session_setups a
      → judge_action D program x id a ≡ some v
      → OnRole D program x v
  unfolding judge_action
  judge_action-OnRole id (await_setup_response c i p first) o v at eo (spec, es) h =
      judge_await-OnRole id c i p first o spec v (record { at = at; outcome = eo; setup = es })
        (map_get c x.connection_roles) refl h
  judge_action-OnRole id (connect _ _) o v at eo k h = cc
  judge_action-OnRole id (send _ _ _ _ _) o v at eo k h = cc
  judge_action-OnRole id (enter_on_setup_success _ _) o v at eo k h = cc
  judge_action-OnRole id exit_block o v at eo k h = cc
  judge_action-OnRole id (advance_time _) o v at eo k h = cc
  judge_action-OnRole id probe o v at eo k h = cc

  turn-OnRole :
      (id : ℕ) (a : Action) (actions : List Action) (v : Violation) (found : Option Violation)
      → judge_action D program x id a ≡ found
      → conformance_from D program x id (a ∷ actions) ≡ fail v
      → ((u : Violation) → found ≡ some u → OnRole D program x u)
      → (conformance_from D program x (suc id) actions ≡ fail v → OnRole D program x v)
      → OnRole D program x v
  unfolding conformance_from
  turn-OnRole id a actions v none e h first later = later (rw (e, conformance_from) at h)
  turn-OnRole id a actions v (some u) e h first later =
      let failed = (rw (e, conformance_from) at h) in
      let same : u ≡ v = cc in subst (OnRole D program x) same (first u refl)

  -- The actions from an index on are the program's.
  abbrev Rest : ℕ → List Action → Type 0
  Rest id actions =
      (k : ℕ) (a : Action)
      → get_elem? actions k ≡ some a
      → get_elem? program.actions (id + k) ≡ some a

  -- the program has this action at an index
  abbrev Has : Action → ℕ → Type 0
  Has a k = get_elem? program.actions k ≡ some a

  conformance_from-OnRole :
      (id : ℕ) (actions : List Action) (v : Violation)
      → Rest id actions
      → id + length actions ≤ length x.outcomes
      → All (Known program.metadata.session_setups) actions
      → conformance_from D program x id actions ≡ fail v
      → OnRole D program x v
  unfolding conformance_from
  conformance_from-OnRole id [] v rest le k h = cc
  conformance_from-OnRole id (a ∷ actions) v rest le k h =
      let (o, eo) = get_elem?-exists x.outcomes id (omega arith) in
      let here : Has a id = subst (Has a) (omega arith) (rest 0 a refl) in
      turn-OnRole id a actions v (judge_action D program x id a) refl h
        (λ u e. judge_action-OnRole id a o u here eo k.0 e)
        (conformance_from-OnRole (suc id) actions v
          (λ n b g. subst (Has b) (omega arith) (rest (suc n) b g)) (omega arith) k.1)

  -- In a total execution of a compiled program, what the conformance oracle finds is of a role: no outcome
  -- and no setup is missing.
  pub evaluate_conformance-OnRole :
      (w : Wire) (p : Program) (v : Violation)
      → compile w p ≡ ok program
      → is_total program x ≡ true
      → evaluate_conformance D program x ≡ fail v
      → OnRole D program x v
  unfolding evaluate_conformance is_total
  evaluate_conformance-OnRole w p v compiled total h =
      let counted = (==_iff (length x.outcomes) (length program.actions)).0 total in
      conformance_from-OnRole 0 program.actions v (λ k a g. subst (Has a) (omega arith) g)
        (omega arith) (compile-AllKnown w p program compiled) h
