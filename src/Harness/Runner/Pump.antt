-- ===== src/Harness/Runner/Pump.antt =====
-- The loops over arriving frames in crates/stratamoto/src/runner.rs end, and leave a setup answered.
use stratamoto.Base.{
  ℕ, zero, suc, ◌-◌, ◌<◌, ◌≡◌, ◌≢◌, ◌⊎◌, inl, inr, refl, ap, true, false, Option, none, some, leb,
  Bool-cases, Returns, returned, Returns-bind, arith,
}
use stratamoto.Harness.Errors.{Error}
use stratamoto.Harness.Frames.{Frame}
use stratamoto.Harness.Events.{
  Event, SetupState, unsent, pending, established, rejected, unexpected, ConnectionState, dispatch,
}
use stratamoto.Harness.Events.States.{
  SetupStep, established_by, rejected_by, answered_otherwise, still_pending, not_pending,
  dispatch-SetupStep,
}
use stratamoto.Harness.Environment.{Deployment, DeploymentLaws}
use stratamoto.Harness.Runner.{ActionOutcome, is_pending, response_of, silence, pump_until, drain}
use stratamoto.Harness.Runner.Fits.{IsFailure, transport_failure-IsFailure}

-- A setup was sent.
abbrev pub Asked : SetupState → Type 0
Asked unsent = ⊥
Asked _ = Unit

SetupStep-Asked : {t : ℕ} {s s' : SetupState} {e : Event} → SetupStep t s e s' → Asked s → Asked s'
SetupStep-Asked (established_by v f) h = tt
SetupStep-Asked (rejected_by f c) h = tt
SetupStep-Asked (answered_otherwise e n) h = tt
SetupStep-Asked (still_pending e u) h = h
SetupStep-Asked (not_pending s e n) h = h

dispatch-Asked : (f : Frame) (s : ConnectionState) → Asked s.setup → Asked (dispatch f s).0.setup
dispatch-Asked f s h = SetupStep-Asked (dispatch-SetupStep f s).step h

response-ne-silence : (s : SetupState) → Asked s → is_pending s ≡ false → response_of s ≢ silence
unfolding is_pending response_of
response-ne-silence unsent h n e = h
response-ne-silence pending h n e = cc
response-ne-silence (established v f) h n e = cc
response-ne-silence (rejected f c) h n e = cc
response-ne-silence (unexpected t) h n e = cc

abbrev pub Ended : {A : Type 0} → A → Type 0
Ended _ = Unit

-- What `pump` gives: a failure, or an answer.
abbrev pub Pumped : {E : Type 0} → Option ActionOutcome × (ConnectionState × E) → Type 0
Pumped (some o, _) = IsFailure o
Pumped (none, (s, _)) = response_of s.setup ≢ silence

module _ {E L : Type 0} (D : Deployment E L) (laws : DeploymentLaws D) (budget : E → ℕ) where
  -- The next turn of the loop of `pump`, from what is received.
  pump_turn-Returns :
      (fuel : ℕ) (link : L) (deadline : ℕ) (s : ConnectionState) (e : E) (x : Error ⊎ Frame)
      → is_pending s.setup ≡ true
      → leb deadline (D.now e).0 ≡ false
      → (D.recv link (deadline - (D.now e).0) (D.now e).1).0 ≡ x
      → ((f : Frame)
          → x ≡ inr f
          → Returns Pumped (
              pump_until D budget fuel link deadline
                (dispatch f s).0
                (D.recv link (deadline - (D.now e).0) (D.now e).1).1))
      → Returns Pumped (pump_until D budget (suc fuel) link deadline s e)
  unfolding pump_until
  pump_turn-Returns fuel link deadline s e (inr f) t early got later =
      rw (t, pump_until, early, got) (later f refl)
  pump_turn-Returns fuel link deadline s e (inl x) t early got later =
      rw (t, pump_until, early, got) (returned (transport_failure-IsFailure x))

  -- With more fuel than frames to come, the loop of `pump` ends.
  pub pump_until-Returns :
      (fuel : ℕ) (link : L) (deadline : ℕ) (s : ConnectionState) (e : E)
      → laws.to_come e < fuel
      → Asked s.setup
      → Returns Pumped (pump_until D budget fuel link deadline s e)
  unfolding pump_until
  pump_until-Returns zero link deadline s e f h = absurd (omega arith)
  pump_until-Returns (suc fuel) link deadline s e f h = elim (Bool-cases (is_pending s.setup)) [
    | inr n ↦ rw (n, pump_until) (returned (response-ne-silence s.setup h n))
    | inl t ↦ elim (Bool-cases (leb deadline (D.now e).0)) [
      | inl late ↦ rw (t, pump_until, late) (returned tt)
      | inr early ↦
          let wait = deadline - (D.now e).0 in
          let got = D.recv link wait (D.now e).1 in
          pump_turn-Returns fuel link deadline s e got.0 t early refl (λ g eq.
            pump_until-Returns fuel link deadline (dispatch g s).0 got.1
              (let took = laws.recv_takes link wait (D.now e).1 got.1 g (ap (λ x. (x, got.1)) eq) in
                let kept = laws.now_keeps e in omega arith)
              (dispatch-Asked g s h))
    ]
  ]

  drain_turn-Returns :
      (fuel id : ℕ) (link : L) (s : ConnectionState) (e : E) (x : Error ⊎ Frame)
      → (D.recv link 0 e).0 ≡ x
      → ((f : Frame)
          → x ≡ inr f
          → Returns Ended (drain D budget fuel id link (dispatch f s).0 (D.recv link 0 e).1))
      → Returns Ended (drain D budget (suc fuel) id link s e)
  unfolding drain
  drain_turn-Returns fuel id link s e (inl x) got later = rw (got, drain) (returned tt)
  drain_turn-Returns fuel id link s e (inr f) got later =
      rw (got, drain) (Returns-bind (later f refl) (λ out _. returned tt))

  -- And so does the draining of a link.
  pub drain-Returns :
      (fuel id : ℕ) (link : L) (s : ConnectionState) (e : E)
      → laws.to_come e < fuel
      → Returns Ended (drain D budget fuel id link s e)
  unfolding drain
  drain-Returns zero id link s e f = absurd (omega arith)
  drain-Returns (suc fuel) id link s e f =
      let got = D.recv link 0 e in
      drain_turn-Returns fuel id link s e got.0 refl (λ g eq.
        drain-Returns fuel id link (dispatch g s).0 got.1
          (let took = laws.recv_takes link 0 e got.1 g (ap (λ x. (x, got.1)) eq) in omega arith))
