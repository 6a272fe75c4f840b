-- ===== src/Harness/Runner.antt =====
-- crates/stratamoto/src/runner.rs: the runner of compiled programs.
-- The loops over arriving frames run on a fuel that `budget` reads off the environment when they
-- begin; `not_ended` is that a loop ran out of it. A hash map is an association list, so that
-- `probe` visits the links in the order of their first connection. The text of a transport error is
-- the error that it prints. Durations are in milliseconds.
pub mod Outcomes
pub mod Fits
pub mod Pump
pub mod Actions
pub mod Loop
unfoldable pub use Outcomes.*
use stratamoto.Base.{
  ℕ, zero, suc, ◌+◌, ◌-◌, Bool, true, false, not, ◌&&◌, ◌||◌, List, [], ◌∷◌, ◌++◌, length,
  get_elem?, replicate, Option, none, some, inl, inr, leb, ltb, ◌==◌, if◌then◌else◌, map_get,
  map_insert, Result, ok, err, panic, ◌>>=◌,
}
use stratamoto.Ir.Variable.{Protocol}
use stratamoto.Ir.Spec.{
  Action, send, await_setup_response, enter_on_setup_success, exit_block, CompiledProgram,
}
use stratamoto.Harness.Errors.{
  Error, io, timeout, IoErrorKind, unexpected_eof, connection_reset, connection_aborted,
  broken_pipe, not_connected, other_kind,
}
use stratamoto.Harness.Frames.{Frame}
use stratamoto.Harness.Events.{
  ConnectionState, new_connection, SetupState, unsent, pending, established, rejected, unexpected,
  dispatch,
}
use stratamoto.Harness.Environment.{Deployment}

pub data NotEnded : Type 0 where
  not_ended : NotEnded

-- `none` as the result of a check is success.
abbrev pub Ran : Type 0 → Type 0
Ran = Result NotEnded

pub record Runner (E L : Type 0) : Type 0 where
  pub connections : List (ℕ × L)
  pub states : List (ℕ × ConnectionState)
  pub execution : Execution
  pub env : E

unfoldable pub recorded_response : ActionOutcome → SetupResponse
recorded_response (completed (setup response)) = response
recorded_response _ = silence

unfoldable pub min : ℕ → ℕ → ℕ
min a b = if leb a b then a else b

-- the outcomes of a skipped block, from the action at `next` to the one at `end`
unfoldable pub skip_outcomes : ℕ → ℕ → Prerequisite → List ActionOutcome
skip_outcomes next end unmet = replicate (end + 1 - next) (skipped unmet)

module _ {E L : Type 0} where
  unfoldable pub is_established : ℕ → Runner E L → Bool
  is_established session r = elim (map_get session r.execution.sessions) [
    | none ↦ false
    | some s ↦ is_success s.response
  ]

  unfoldable pub unmet_prerequisite : Action → Runner E L → Option (Prerequisite × ℕ)
  unfolding is_established
  unmet_prerequisite (enter_on_setup_success session end) r =
      if is_established session r then none else some (setup_done session, end)
  unmet_prerequisite _ r = none

  -- `states.get_mut(..)` and a change of what it gives
  unfoldable pub put_state : ℕ → ConnectionState → Runner E L → Runner E L
  put_state c s r = record r { states = map_insert c s r.states }

  -- the answer of a setup, where `pump` did not fail
  unfoldable pub setup_outcome : ℕ → Option ActionOutcome → Runner E L → Ran ActionOutcome
  setup_outcome c (some failure) r = ok failure
  setup_outcome c none r = elim (map_get c r.states) [
    | none ↦ panic
    | some s ↦ ok (completed (setup (response_of s.setup)))
  ]

  unfoldable pub record_session : ℕ → Session → Runner E L → Runner E L
  record_session session s r = record r {
    execution = record r.execution { sessions = map_insert session s r.execution.sessions };
  }

  -- `execution.outcomes.push(..)` of some outcomes
  unfoldable pub push_outcomes : List ActionOutcome → Runner E L → Runner E L
  push_outcomes xs r = record r {
    execution = record r.execution { outcomes = r.execution.outcomes ++ xs };
  }

  abbrev pub new_runner : E → Runner E L
  new_runner e = record { connections = []; states = []; execution = new_execution; env = e }

  module _ (D : Deployment E L) (budget : E → ℕ) where
    -- The loop of `pump` until a setup is no longer pending; a timeout does not ask again, since the
    -- state is the one it has just asked. It gives the state of the connection
    -- and the outcome of a failure.
    unfoldable pub pump_until :
        ℕ → L → ℕ → ConnectionState → E → Ran (Option ActionOutcome × (ConnectionState × E))
    pump_until zero link deadline s e = err not_ended
    pump_until (suc fuel) link deadline s e = elim (is_pending s.setup) [
      | false ↦ ok (none, (s, e))
      | true ↦
          let (time, e₁) = D.now e in
          elim (leb deadline time) [
            | true ↦ ok (some timed_out, (s, e₁))
            | false ↦
                let (received, e₂) = D.recv link (deadline - time) e₁ in
                elim received [
                  | inr frame ↦ pump_until fuel link deadline (dispatch frame s).0 e₂
                  | inl x ↦ ok (some (transport_failure x), (s, e₂))
                ]
          ]
    ]

    -- `pump` on a connection, for the end of a pending setup
    unfoldable pub pump : ℕ → ℕ → Runner E L → Ran (Option ActionOutcome × Runner E L)
    pump c wait r = elim (map_get c r.connections) [
      | none ↦ ok (some (skipped (connection_open c)), r)
      | some link ↦ elim (map_get c r.states) [
        | none ↦ ok (some (skipped (connection_open c)), r)
        | some s ↦
            let (time, e₁) = D.now r.env in
            pump_until (budget e₁) link (time + wait) s e₁ >>= λ out.
            ok (out.0, record (put_state c out.1.0 r) { env = out.1.1 })
      ]
    ]

    unfoldable pub perform_connect : ℕ → ℕ → Runner E L → ActionOutcome × Runner E L
    perform_connect c role r =
        let (opened, e) = D.connect c role r.env in
        elim opened [
          | none ↦ (transport_error (not_opened c role), record r { env = e })
          | some link ↦ (
            completed no_response,
            record r {
              connections = map_insert c link r.connections;
              states = map_insert c new_connection r.states;
              execution = record r.execution {
                connection_roles = map_insert c role r.execution.connection_roles;
              };
              env = e;
            },
          )
        ]

    unfoldable pub perform_send :
        ℕ → ℕ → ℕ → Bool → List ℕ → Runner E L → ActionOutcome × Runner E L
    perform_send c extension_type message_type channel_msg payload r =
        elim (map_get c r.connections) [
          | none ↦ (skipped (connection_open c), r)
          | some link ↦
              let (sent, e) = D.send link extension_type message_type channel_msg payload r.env in
              elim sent [
                | inr _ ↦ (completed no_response, record r { env = e })
                | inl x ↦ (transport_failure x, record r { env = e })
              ]
        ]

    unfoldable pub perform_await :
        ℕ → ℕ → Protocol → Bool → Runner E L → Ran (ActionOutcome × Runner E L)
    perform_await c session protocol first r = elim (map_get c r.states) [
      | none ↦ ok (skipped (connection_open c), r)
      | some s ↦ do
        (failure, r₁) ←
            pump c (if first then response_timeout else unowed_response_wait)
              (put_state c (record s { setup = pending }) r)
        outcome ← setup_outcome c failure r₁
        ok (
          outcome,
          record_session session
              (record {
                connection = c;
                protocol = protocol;
                first_on_connection = first;
                response = recorded_response outcome;
              })
              r₁,
        )
    ]

    -- `while let Ok(mut frame) = link.recv(Duration::ZERO)` of one link
    unfoldable pub drain :
        ℕ → ℕ → L → ConnectionState → E → Ran (List (ℕ × ℕ) × (ConnectionState × E))
    drain zero id link s e = err not_ended
    drain (suc fuel) id link s e =
        let (received, e₁) = D.recv link 0 e in
        elim received [
          | inl _ ↦ ok ([], (s, e₁))
          | inr frame ↦ drain fuel id link (dispatch frame s).0 e₁ >>= λ out.
              ok ((id, frame.header.msg_type) ∷ out.0, out.1)
        ]

    -- the loop over the links
    unfoldable pub probe_links : List (ℕ × L) → Runner E L → Ran (List (ℕ × ℕ) × Runner E L)
    unfolding drain
    probe_links [] r = ok ([], r)
    probe_links ((id, link) ∷ links) r = elim (map_get id r.states) [
      | none ↦ probe_links links r
      | some s ↦ drain (budget r.env) id link s r.env >>= λ out.
          probe_links links (record (put_state id out.1.0 r) { env = out.1.1 }) >>= λ later.
          ok (out.0 ++ later.0, later.1)
    ]

    unfoldable pub perform_probe : Runner E L → Ran (ActionOutcome × Runner E L)
    unfolding probe_links
    perform_probe r = do
      (found, r₁) ← probe_links r.connections r
      let sorted = sort found
      ok (
        completed (probed sorted),
        record r₁ {
          execution = record r₁.execution { unsolicited = r₁.execution.unsolicited ++ sorted };
        },
      )

    unfoldable pub perform : Action → Runner E L → Ran (ActionOutcome × Runner E L)
    unfolding perform_connect perform_send
    perform (enter_on_setup_success _ _) r = ok (completed no_response, r)
    perform exit_block r = ok (completed no_response, r)
    perform (Action.connect c role) r = ok (perform_connect c role r)
    perform (send c extension_type message_type channel_msg payload) r =
        ok (perform_send c extension_type message_type channel_msg payload r)
    perform (await_setup_response c session protocol first) r =
        perform_await c session protocol first r
    perform (Action.advance_time duration) r =
        ok (completed no_response, record r { env = D.advance_time duration r.env })
    perform Action.probe r = perform_probe r

    -- the loop of `run`
    unfoldable pub run_from : ℕ → List Action → ℕ → Runner E L → Ran (Runner E L)
    unfolding push_outcomes
    run_from zero actions next r = if leb (length actions) next then ok r else err not_ended
    run_from (suc fuel) actions next r = elim (get_elem? actions next) [
      | none ↦ ok r
      | some action ↦ elim (unmet_prerequisite action r) [
        | some (unmet, end) ↦
            let last = min end (length actions - 1) in
            run_from fuel actions (last + 1) (push_outcomes (skip_outcomes next last unmet) r)
        | none ↦ perform action r >>= λ out.
            run_from fuel actions (next + 1) (push_outcomes (out.0 ∷ []) out.1)
      ]
    ]

    -- `run`, and the environment after it
    unfoldable pub run : CompiledProgram → E → Ran (Execution × E)
    unfolding run_from
    run p e = do
      r ← run_from (length p.actions) p.actions 0 (new_runner e)
      ok (record r.execution { connections = r.states }, r.env)
