-- ===== src/Harness/Scenario/Verdicts.antt =====
-- The verdicts of crates/stratamoto-scenarios/src/setup_connection.rs, and of a whole test case from its
-- program to its exit code.
use stratamoto.Base.{
  ℕ, ◌<◌, ◌≤◌, ◌≡◌, ◌≢◌, ◌↔◌, ◌⊎◌, inl, inr, refl, ap, ◌∙◌, Bool, true, false, List, length,
  get_elem?-exists, get_elem?-lt-length, Option, none, some, Result, ok, err, panic, >>=-eq-ok,
  Returns, returned, Returns-bind, arith, Bool-cases, ltb, ==_iff,
}
use stratamoto.Ir.Instruction.{Program}
use stratamoto.Ir.Builder.{is_statically_valid}
use stratamoto.Ir.Spec.{Action, CompiledProgram, Wire, WireLaws}
use stratamoto.Ir.Compiler.{compile}
use stratamoto.Ir.Compiler.Jumps.Compiled.{AllClosed, compile-Closed}
use stratamoto.Harness.Errors.{Error}
use stratamoto.Harness.Environment.{Deployment, DeploymentLaws}
use stratamoto.Harness.Runner.{
  ActionOutcome, completed, skipped, harness_error, timed_out, transport_closed, transport_error,
  Execution, new_execution, run, is_total,
}
use stratamoto.Harness.Runner.Fits.{
  Fits, AllFit, IsFailure, in_skipped_block, without_connection, without_answer, answered,
  collected, failed,
}
use stratamoto.Harness.Runner.Loop.{run_actions-Returns}
use stratamoto.Harness.Oracle.{
  OracleResult, pass, fail, Violation, evaluate_integrity, evaluate_conformance, evaluate_crash,
}
use stratamoto.Harness.Oracle.Conforms.{Conforms, evaluate_conformance-Conforms}
use stratamoto.Harness.Oracle.Integrity.{Integral, IsHarnessError, evaluate_integrity-Integral}
use stratamoto.Harness.Oracle.Blames.{OnRole, evaluate_conformance-OnRole}
use stratamoto.Harness.Scenario.{
  ScenarioResult, passed, skip, found, infrastructure, TestCase, Run, InputError, not_compiled,
  map_err, from_valid, from_program, decode, fail_report, then_judge, evaluate, execute,
  run_scenario, Report, conclude, main, harness_integrity_oracle, setup_connection_oracle,
  crash_oracle,
}

-- The verdicts on the deployment: the harness is not to blame, a setup is faulted only where a role is
-- not known or answered as it may not where an answer is owed, and a crash is found only of a
-- deployment that no longer serves.
abbrev pub OnDeployment :
    {E L : Type 0} → Deployment E L → CompiledProgram → Execution → E → ScenarioResult → Type 0
OnDeployment D p x e (infrastructure _ _) = ⊥
OnDeployment D p x e (found harness_integrity_oracle _) = ⊥
OnDeployment D p x e (found setup_connection_oracle v) = OnRole D p x v
OnDeployment D p x e (found crash_oracle _) = D.is_alive e ≡ false
OnDeployment D p x e _ = Unit

IsFailure-not-IsHarnessError : (o : ActionOutcome) → IsFailure o → ¬ (IsHarnessError o)
IsFailure-not-IsHarnessError timed_out f h = h
IsFailure-not-IsHarnessError transport_closed f h = h
IsFailure-not-IsHarnessError (transport_error x) f h = h
IsFailure-not-IsHarnessError (completed _) f h = f
IsFailure-not-IsHarnessError (skipped _) f h = f
IsFailure-not-IsHarnessError (harness_error _) f h = f

Fits-not-IsHarnessError : {a : Action} {o : ActionOutcome} → Fits a o → ¬ (IsHarnessError o)
Fits-not-IsHarnessError (in_skipped_block s) h = h
Fits-not-IsHarnessError (without_connection c on) h = h
Fits-not-IsHarnessError (without_answer n) h = h
Fits-not-IsHarnessError (answered c s p f r e n) h = h
Fits-not-IsHarnessError (collected xs e) h = h
Fits-not-IsHarnessError (failed o m f) h = IsFailure-not-IsHarnessError o f h

map_err-ok : {E F A : Type 0} (f : E → F) (r : Result E A) (a : A) → map_err f r ≡ ok a → r ≡ ok a
unfolding map_err
map_err-ok f (ok b) a h = cc
map_err-ok f (err e) a h = cc
map_err-ok f panic a h = cc

ok_program :
    (q : CompiledProgram) (t : TestCase)
    → ◌≡◌ {A = Result InputError TestCase} (ok (record { program = q })) (ok t)
    → q ≡ t.program
ok_program q t h =
    ap (λ (x : TestCase). x.program) (let same : record { program = q } ≡ t = cc in same)

-- A test case was made of a statically valid program by compiling it.
from_valid-compiled :
    (w : Wire) (v : Option Bool) (program : Program) (t : TestCase)
    → from_valid w v program ≡ ok t
    → (v ≡ some true) × (compile w program ≡ ok t.program)
unfolding from_valid
from_valid-compiled w none program t h = cc
from_valid-compiled w (some false) program t h = cc
from_valid-compiled w (some true) program t h =
    let (q, compiled, same) = >>=-eq-ok _ _ h in
    (refl, map_err-ok not_compiled (compile w program) q compiled ∙ ap ok (ok_program q t same))

is_total_lem :
    (p : CompiledProgram) (x : Execution)
    → length x.outcomes ≡ length p.actions
    → is_total p x ≡ true
unfolding is_total
is_total_lem p x h = (==_iff _ _).1 h

then_judge-passed :
    (r : OracleResult) (blame : Violation → ScenarioResult) (later : ScenarioResult)
    → ((v : Violation) → blame v ≢ passed)
    → (then_judge r blame later ≡ passed) ↔ ((r ≡ pass) × (later ≡ passed))
unfolding then_judge
then_judge-passed pass blame later n = (λ h. (refl, h), λ h. h.1)
then_judge-passed (fail v) blame later n = (λ h. absurd (n v h), λ h. let no = h.0 in cc)

decoded-from_program :
    (w : Wire) (from_bytes : List ℕ → Option Program) (bytes : List ℕ) (t : TestCase)
    (o : Option Program)
    → from_bytes bytes ≡ o
    → decode w from_bytes bytes ≡ ok t
    → (program : Program) × (from_bytes bytes ≡ some program) × (from_program w program ≡ ok t)
unfolding decode
decoded-from_program w from_bytes bytes t none e h = let no = (rw (e, decode) at h) in cc
decoded-from_program w from_bytes bytes t (some program) e h =
    let made = (rw (e, decode) at h) in (program, e, made)

decode-from_program :
    (w : Wire) (from_bytes : List ℕ → Option Program) (bytes : List ℕ) (t : TestCase)
    → decode w from_bytes bytes ≡ ok t
    → (program : Program) × (from_bytes bytes ≡ some program) × (from_program w program ≡ ok t)
decode-from_program w from_bytes bytes t =
    decoded-from_program w from_bytes bytes t (from_bytes bytes) refl

module _ {E L : Type 0} (D : Deployment E L) where
  evaluate_crash-pass : (e : E) → (evaluate_crash D e ≡ pass) ↔ (D.is_alive e ≡ true)
  unfolding evaluate_crash
  evaluate_crash-pass e = elim (Bool-cases (D.is_alive e)) [
    | inl t ↦ rw t (λ _. refl, λ _. refl)
    | inr f ↦ rw f (λ h. cc, λ h. cc)
  ]

  -- A scenario lets an execution pass just where the harness carried it out; every await action has an
  -- outcome and a setup, and on an opened connection its role is known and answers as the specification
  -- and the role allow where the setup is the first of its connection and its message violates nothing;
  -- and the deployment still serves.
  pub evaluate-passed :
      (p : CompiledProgram) (x : Execution) (e : E)
      → (evaluate D p x e ≡ passed) ↔ (Integral p x × (Conforms D p x × (D.is_alive e ≡ true)))
  unfolding evaluate
  evaluate-passed p x e =
      let (i₁, i₂) = evaluate_integrity-Integral p x in
      let (c₁, c₂) = evaluate_conformance-Conforms D p x in
      let (a₁, a₂) = evaluate_crash-pass e in
      let (j₁, j₂) =
        then_judge-passed (evaluate_integrity p x) (infrastructure harness_integrity_oracle) _
          (λ v h. cc) in
      let (k₁, k₂) =
        then_judge-passed (evaluate_conformance D p x) (found setup_connection_oracle) _
          (λ v h. cc) in
      let (l₁, l₂) =
        then_judge-passed (evaluate_crash D e) (found crash_oracle) passed (λ v h. cc) in
      (
        λ h. let (i, rest) = j₁ h in let (c, last) = k₁ rest in (i₁ i, (c₁ c, a₁ (l₁ last).0)),
        λ h. j₂ (i₂ h.0, k₂ (c₂ h.1.0, l₂ (a₂ h.1.1, refl))),
      )

  then_judge-OnDeployment :
      (p : CompiledProgram) (x : Execution) (e : E) (r : OracleResult)
      (blame : Violation → ScenarioResult) (later : ScenarioResult)
      → ((v : Violation) → r ≡ fail v → OnDeployment D p x e (blame v))
      → OnDeployment D p x e later
      → OnDeployment D p x e (then_judge r blame later)
  unfolding then_judge
  then_judge-OnDeployment p x e pass blame later f h = h
  then_judge-OnDeployment p x e (fail v) blame later f h = f v refl

  evaluate_crash-fail : (e : E) (v : Violation) → evaluate_crash D e ≡ fail v → D.is_alive e ≡ false
  unfolding evaluate_crash
  evaluate_crash-fail e v h = elim (Bool-cases (D.is_alive e)) [
    | inl t ↦ let no = (rw (t, evaluate_crash) at h) in cc
    | inr f ↦ f
  ]

  -- What the harness carried out is judged to be the deployment's.
  Integral-OnDeployment :
      (w : Wire) (program : Program) (p : CompiledProgram) (x : Execution) (e : E)
      → compile w program ≡ ok p
      → Integral p x
      → OnDeployment D p x e (evaluate D p x e)
  unfolding evaluate then_judge
  Integral-OnDeployment w program p x e compiled i = rw ((evaluate_integrity-Integral p x).1 i) (
      then_judge-OnDeployment p x e (evaluate_conformance D p x) _ _
        (λ v h. evaluate_conformance-OnRole D p x w program v compiled i.total h)
        (then_judge-OnDeployment p x e (evaluate_crash D e) _ passed (evaluate_crash-fail e) tt))

  -- What comes of a test case: it is not one for this deployment, or it was carried out and judged.
  pub data Judged (t : TestCase) : Run × E → Type 0 where
    not_for_it :
        (e : E)
        → D.num_roles < t.program.context.num_roles
        → Judged t (record { execution = new_execution; result = skip }, e)
    judged :
        (x : Execution) (e : E)
        → t.program.context.num_roles ≤ D.num_roles
        → Integral t.program x
        → AllFit t.program.actions x.outcomes
        → OnDeployment D t.program x e (evaluate D t.program x e)
        → Judged t (record { execution = x; result = evaluate D t.program x e }, e)

  module _ (laws : DeploymentLaws D) (budget : E → ℕ)
      (enough : (e : E) → laws.to_come e < budget e) where
    -- An execution that came of a run: each action has an outcome that fits it.
    abbrev Done : CompiledProgram → Execution × E → Type 0
    Done p (x, e) = Integral p x × AllFit p.actions x.outcomes

    -- A program whose blocks are closed is run to its end against a deployment from which finitely many
    -- frames arrive, with a budget above their number, with one outcome for each action that fits it, a
    -- skipped block included.
    pub run-Done :
        (p : CompiledProgram) (e : E) → AllClosed p.actions → Returns (Done p) (run D budget p e)
    unfolding run
    run-Done p e closed =
        Returns-bind (run_actions-Returns D laws budget enough p.actions closed e) (λ r u.
          returned (
            record {
              total = is_total_lem p (record r.execution { connections = r.states }) u.counted;
              carried_out = λ k o g.
                  let lt = get_elem?-lt-length r.execution.outcomes k g in
                  let counted = u.counted in
                  let (a, at) = get_elem?-exists p.actions k (omega arith) in
                  Fits-not-IsHarnessError (u.fit k a o at g);
            },
            u.fit,
          ))

    -- Against a deployment from which finitely many frames arrive, with a budget above their number,
    -- and where the wire library does what it documents, running a test case that was made of a
    -- statically valid program ends: it is skipped just where it has more roles than the deployment,
    -- and otherwise every action has one outcome that fits it, none a failure of the harness, and the
    -- verdict is about the deployment: a setup is faulted only where its role is not known, or where it
    -- is the first of its connection, its message violates nothing, and the role answered as it may
    -- not; a crash is found only where the deployment no longer serves.
    pub execute-Judged :
        (w : Wire) (program : Program) (t : TestCase) (e : E)
        → WireLaws w
        → from_program w program ≡ ok t
        → Returns (Judged t) (execute D budget t e)
    unfolding execute from_program
    execute-Judged w program t e wire made =
        let (valid, compiled) =
          from_valid-compiled w (is_statically_valid program) program t made in
        elim (Bool-cases (ltb D.num_roles t.program.context.num_roles)) [
          | inl other ↦ rw other (returned (not_for_it e (grind arith)))
          | inr fits ↦ rw fits (
              Returns-bind
                (run-Done t.program e (compile-Closed w program t.program wire valid compiled))
                (λ out done. returned (
                  judged out.0 out.1 (grind arith) done.0 done.1
                    (Integral-OnDeployment w program t.program out.0 out.1 compiled done.0))))
        ]

    conclude-OnDeployment :
        (p : CompiledProgram) (x : Execution) (e : E) (r : ScenarioResult)
        → OnDeployment D p x e r
        → ((conclude r).0 ≡ 0) ⊎ (conclude r ≡ (1, fail_report))
    unfolding conclude
    conclude-OnDeployment p x e passed h = inl refl
    conclude-OnDeployment p x e skip h = inl refl
    conclude-OnDeployment p x e (found n v) h = inr refl
    conclude-OnDeployment p x e (infrastructure n v) h = absurd h

    Judged-OnDeployment :
        (t : TestCase) (out : Run × E)
        → Judged t out
        → OnDeployment D t.program out.0.execution out.1 out.0.result
    Judged-OnDeployment t _ (not_for_it e other) = tt
    Judged-OnDeployment t _ (judged x e fits i f on) = on

    -- How a scenario ends for its program.
    abbrev Concluded : ScenarioResult → Type 0
    Concluded r = ((conclude r).0 ≡ 0) ⊎ (conclude r ≡ (1, fail_report))

    Judged-Concluded : (t : TestCase) (out : Run × E) → Judged t out → Concluded out.0.result
    Judged-Concluded t out j =
        conclude-OnDeployment t.program out.0.execution out.1 out.0.result
          (Judged-OnDeployment t out j)

    -- Against a deployment from which finitely many frames arrive, with a budget above their number,
    -- and where the wire library does what it documents, once the scenario has started and its bytes
    -- decode to a test case its program ends with the exit code 0 or, with a finding reported, 1; never
    -- with that of the harness having failed.
    pub main-exit_code :
        (w : Wire) (from_bytes : List ℕ → Option Program) (bytes : List ℕ) (t : TestCase) (e : E)
        → WireLaws w
        → decode w from_bytes bytes ≡ ok t
        → Returns
            (λ (out : ℕ × Report). (out.0 ≡ 0) ⊎ (out ≡ (1, fail_report)))
            (main {X = Error} (ok tt) (decode w from_bytes) bytes (run_scenario D budget e))
    unfolding main run_scenario
    main-exit_code w from_bytes bytes t e wire decoded =
        let (program, _, made) = decode-from_program w from_bytes bytes t decoded in
        rw (decoded, main)
          (Returns-bind
            (Returns-bind (execute-Judged w program t e wire made)
              (λ out j. returned (Judged-Concluded t out j)))
            (λ r on. returned on))
