-- ===== src/Harness/Runner/Actions.antt =====
-- What performing one action of crates/stratamoto/src/runner.rs gives.
use stratamoto.Base.{
  ℕ, ◌+◌, ◌<◌, ◌≡◌, ◌≢◌, ◌⊎◌, inl, inr, refl, ap, ◌∙◌, Bool, true, List, [], ◌∷◌, Option, none,
  some, if◌then◌else◌, map_get, map_insert, map_get-map_insert, ◌==◌, Returns, returned,
  Returns-bind, subst, arith,
}
use stratamoto.Ir.Variable.{Protocol}
use stratamoto.Ir.Spec.{Action, send, await_setup_response, enter_on_setup_success, exit_block}
use stratamoto.Harness.Errors.{Error}
use stratamoto.Harness.Events.{ConnectionState, pending}
use stratamoto.Harness.Environment.{Deployment, DeploymentLaws}
use stratamoto.Harness.Runner.{
  ActionOutcome, Execution, skipped, connection_open, Runner, response_of, silence, put_state, pump,
  setup_outcome, record_session, response_timeout, unowed_response_wait, probe_links, perform,
  perform_connect, perform_send, perform_await, perform_probe, sort,
}
use stratamoto.Harness.Runner.Fits.{
  Fits, without_connection, without_answer, answered, collected, failed, IsFailure,
  transport_failure-IsFailure,
}
use stratamoto.Harness.Runner.Pump.{Asked, Pumped, pump_until-Returns, drain-Returns}

-- The outcome of an action fits it, and the outcomes so far stay.
abbrev pub Performed : {E L : Type 0} → Action → Runner E L → ActionOutcome × Runner E L → Type 0
Performed a r (o, r') = Fits a o × (r'.execution.outcomes ≡ r.execution.outcomes)

-- What `pump` on a connection gives: no answer, for a reason, or an answer in its state.
abbrev pub PumpedOn : {E L : Type 0} → ℕ → Runner E L → Option ActionOutcome × Runner E L → Type 0
PumpedOn c r (some o, r') =
    ((o ≡ skipped (connection_open c)) ⊎ IsFailure o) × (r'.execution ≡ r.execution)
PumpedOn c r (none, r') =
    ((s : ConnectionState) × (map_get c r'.states ≡ some s) × (response_of s.setup ≢ silence))
    × (r'.execution ≡ r.execution)

-- A probe's loop does not touch what was executed.
abbrev ExecutionKept : {E L : Type 0} → Runner E L → List (ℕ × ℕ) × Runner E L → Type 0
ExecutionKept r out = out.1.execution ≡ r.execution

map_get-map_insert_self :
    {V : Type 0} (k : ℕ) (v : V) (m : List (ℕ × V)) → map_get k (map_insert k v m) ≡ some v
map_get-map_insert_self k v m =
    map_get-map_insert k k v m
    ∙ ap (λ b. if b then some v else map_get k m) (let r : (k == k) ≡ true = grind arith in r)

module _ {E L : Type 0} (D : Deployment E L) (laws : DeploymentLaws D) (budget : E → ℕ)
    (enough : (e : E) → laws.to_come e < budget e) where
  Pumped-PumpedOn :
      (c : ℕ) (r : Runner E L) (out : Option ActionOutcome × (ConnectionState × E))
      → Pumped out
      → PumpedOn c r (out.0, record (put_state c out.1.0 r) { env = out.1.1 })
  unfolding put_state
  Pumped-PumpedOn c r (some o, (s, e)) h = (inr h, refl)
  Pumped-PumpedOn c r (none, (s, e)) h = ((s, map_get-map_insert_self c s r.states, h), refl)

  pump_linked-Returns :
      (c wait : ℕ) (r : Runner E L) (s : ConnectionState) (l : Option L)
      → map_get c r.connections ≡ l
      → map_get c r.states ≡ some s
      → Asked s.setup
      → Returns (PumpedOn c r) (pump D budget c wait r)
  unfolding pump
  pump_linked-Returns c wait r s none l g h = rw (l, pump) (returned (inl refl, refl))
  pump_linked-Returns c wait r s (some link) l g h =
      rw (l, pump, g)
        (Returns-bind
          (pump_until-Returns D laws budget (budget (D.now r.env).1) link ((D.now r.env).0 + wait) s
            (D.now r.env).1 (enough (D.now r.env).1) h)
          (λ out p. returned (Pumped-PumpedOn c r out p)))

  -- The session of an await action is recorded after it, with the answer of its outcome.
  awaited-Performed :
      (c session : ℕ) (p : Protocol) (first : Bool) (r : Runner E L)
      → (out : Option ActionOutcome × Runner E L) → PumpedOn c r out
      → Returns (λ o. Fits (await_setup_response c session p first) o) (setup_outcome c out.0 out.1)
  unfolding setup_outcome
  awaited-Performed c session p first r (some o, r') ((inl x), _) =
      rw x (returned (without_connection c refl))
  awaited-Performed c session p first r (some o, r') ((inr x), _) = returned (failed o tt x)
  awaited-Performed c session p first r (none, r') ((s, g, n), _) =
      rw (g, setup_outcome) (returned (answered c session p first (response_of s.setup) refl n))

  PumpedOn-execution :
      (c : ℕ) (r : Runner E L) (out : Option ActionOutcome × Runner E L)
      → PumpedOn c r out
      → out.1.execution ≡ r.execution
  PumpedOn-execution c r (some o, r') h = h.1
  PumpedOn-execution c r (none, r') h = h.1

  perform_await-Returns :
      (c session : ℕ) (p : Protocol) (first : Bool) (r : Runner E L) (s : Option ConnectionState)
      → map_get c r.states ≡ s
      → Returns
          (Performed (await_setup_response c session p first) r)
          (perform_await D budget c session p first r)
  unfolding perform_await put_state record_session
  perform_await-Returns c session p first r none g =
      rw (g, perform_await) (returned (without_connection c refl, refl))
  perform_await-Returns c session p first r (some s) g =
      let r₀ = put_state c (record s { setup = pending }) r in
      rw (g, perform_await)
        (Returns-bind
          (pump_linked-Returns c (if first then response_timeout else unowed_response_wait) r₀
            (record s { setup = pending }) (map_get c r.connections) refl
            (map_get-map_insert_self c _ r.states) tt)
          (λ out h. Returns-bind (awaited-Performed c session p first r₀ out h) (λ o fits.
            returned (fits, ap (λ (x : Execution). x.outcomes) (PumpedOn-execution c r₀ out h)))))

  probe_link-Returns :
      (id : ℕ) (link : L) (links : List (ℕ × L)) (r : Runner E L) (s : Option ConnectionState)
      → map_get id r.states ≡ s
      → ((r' : Runner E L)
          → r'.execution ≡ r.execution
          → Returns (ExecutionKept r) (probe_links D budget links r'))
      → Returns (ExecutionKept r) (probe_links D budget ((id, link) ∷ links) r)
  unfolding probe_links put_state
  probe_link-Returns id link links r none g rest = rw (g, probe_links) (rest r refl)
  probe_link-Returns id link links r (some s) g rest =
      rw (g, probe_links)
        (Returns-bind (drain-Returns D laws budget (budget r.env) id link s r.env (enough r.env))
          (λ out _. Returns-bind (rest _ refl) (λ later kept. returned kept)))

  probe_links-Returns :
      (links : List (ℕ × L)) (r : Runner E L)
      → Returns (ExecutionKept r) (probe_links D budget links r)
  unfolding probe_links
  probe_links-Returns [] r = returned refl
  probe_links-Returns ((id, link) ∷ links) r =
      probe_link-Returns id link links r (map_get id r.states) refl (λ r' kept.
        subst
          (λ x.
            Returns (λ (out : List (ℕ × ℕ) × Runner E L). out.1.execution ≡ x)
              (probe_links D budget links r'))
          kept (probe_links-Returns links r'))

  perform_connect-Performed :
      (c role : ℕ) (r : Runner E L) (l : Option L)
      → (D.connect c role r.env).0 ≡ l
      → Performed (Action.connect c role) r (perform_connect D budget c role r)
  unfolding perform_connect
  perform_connect-Performed c role r none g = rw (g, perform_connect) (failed _ tt tt, refl)
  perform_connect-Performed c role r (some link) g =
      rw (g, perform_connect) (without_answer tt, refl)

  sent-Performed :
      (c t m : ℕ) (b : Bool) (payload : List ℕ) (r : Runner E L) (link : L) (x : Error ⊎ Unit {0})
      → map_get c r.connections ≡ some link
      → (D.send link t m b payload r.env).0 ≡ x
      → Performed (send c t m b payload) r (perform_send D budget c t m b payload r)
  unfolding perform_send
  sent-Performed c t m b payload r link (inl x) g h =
      rw (g, perform_send, h) (failed _ tt (transport_failure-IsFailure x), refl)
  sent-Performed c t m b payload r link (inr _) g h =
      rw (g, perform_send, h) (without_answer tt, refl)

  perform_send-Performed :
      (c t m : ℕ) (b : Bool) (payload : List ℕ) (r : Runner E L) (l : Option L)
      → map_get c r.connections ≡ l
      → Performed (send c t m b payload) r (perform_send D budget c t m b payload r)
  unfolding perform_send
  perform_send-Performed c t m b payload r none g =
      rw (g, perform_send) (without_connection c refl, refl)
  perform_send-Performed c t m b payload r (some link) g =
      sent-Performed c t m b payload r link _ g refl

  -- Every action is carried out: `perform` returns, and its outcome fits the action.
  pub perform-Returns :
      (a : Action) (r : Runner E L) → Returns (Performed a r) (perform D budget a r)
  unfolding perform perform_probe
  perform-Returns (enter_on_setup_success _ _) r = returned (without_answer tt, refl)
  perform-Returns exit_block r = returned (without_answer tt, refl)
  perform-Returns (Action.connect c role) r = returned (perform_connect-Performed c role r _ refl)
  perform-Returns (send c t m b payload) r =
      returned (perform_send-Performed c t m b payload r _ refl)
  perform-Returns (await_setup_response c session p first) r =
      perform_await-Returns c session p first r _ refl
  perform-Returns (Action.advance_time d) r = returned (without_answer tt, refl)
  perform-Returns Action.probe r =
      Returns-bind (probe_links-Returns r.connections r) (λ out kept.
        returned (collected (sort out.0) refl, ap (λ (x : Execution). x.outcomes) kept))
