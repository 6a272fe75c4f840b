-- ===== src/Dst/Time/Advances.antt =====
-- What an advance of crates/stratamoto-dst/src/time/mod.rs does to the clock and the timers.
use stratamoto.Base.{
  ℕ, zero, suc, ◌≤◌, ◌<◌, ◌≡◌, ◌≢◌, inl, inr, refl, ap, sym, subst, Bool, true, false, List, [],
  ◌∷◌, ◌++◌, length, Option, none, some, ltb, leb, Bool-cases, arith, All, All-imp,
}
use mathlib.Core.List.{Permᴰ}
use mathlib.Core.List.Permᴰ
use stratamoto.Dst.Time.{
  Event, Clock, TimeRuntime, now, set_clock, lesser, pop, next_time, fire_within, fire, advance,
}

-- The clock at a deadline that is not before it.
set_clock-now : (time : ℕ) (c : Clock) → now c ≤ time → now (set_clock time c) ≡ time
set_clock-now time c h = omega arith

module _ {A : Type 0} where
  abbrev pub NotBefore : ℕ → List (Event A) → Type 0
  NotBefore time = All (λ e. time ≤ e.deadline)

  pub All-Permᴰ :
      (P : Event A → Type 0) {xs ys : List (Event A)} → Permᴰ xs ys → All P xs → All P ys
  All-Permᴰ P Permᴰ.nil h = tt
  All-Permᴰ P (Permᴰ.cons e d) h = (subst P e h.0, All-Permᴰ P d h.1)
  All-Permᴰ P (Permᴰ.swap e f) h = (subst P f h.1.0, (subst P e h.0, h.1.1))
  All-Permᴰ P (Permᴰ.trans d f) h = All-Permᴰ P f (All-Permᴰ P d h)

  -- A popped event is least, and with the rest it is the queue.
  pub record Popped (q : List (Event A)) (event : Event A) (rest : List (Event A)) : Type 0 where
    pub least : NotBefore event.deadline rest
    pub counted : length q ≡ suc (length rest)
    pub same : Permᴰ (event ∷ rest) q

  abbrev PoppedFrom : List (Event A) → Option (Event A × List (Event A)) → Type 0
  PoppedFrom q none = q ≡ []
  PoppedFrom q (some (event, rest)) = Popped q event rest

  pop_step :
      (e : Event A) (es : List (Event A)) (found : Option (Event A × List (Event A)))
      → pop es ≡ found
      → PoppedFrom es found
      → PoppedFrom (e ∷ es) (pop (e ∷ es))
  unfolding pop
  pop_step e es none g h =
      rw (g, pop, h) (record { least = tt; counted = refl; same = Permᴰ.refl _ })
  pop_step e es (some (top, rest)) g h = elim (Bool-cases (leb e.deadline top.deadline)) [
    | inl lesser ↦
        let le : e.deadline ≤ top.deadline = grind arith in
        rw (g, pop, lesser)
          (record {
            least =
                All-Permᴰ (λ x. e.deadline ≤ x.deadline) h.same
                  (
                    le,
                    All-imp (λ x. top.deadline ≤ x.deadline) (λ x. e.deadline ≤ x.deadline) rest
                        (λ x k. omega arith) h.least,
                  );
            counted = refl;
            same = Permᴰ.refl _;
          })
    | inr more ↦
        let lt : top.deadline < e.deadline = grind arith in
        rw (g, pop, more)
          (record {
            least = (omega arith, h.least);
            counted = ap suc h.counted;
            same = Permᴰ.trans (Permᴰ.swap refl refl) (Permᴰ.cons refl h.same);
          })
  ]

  pop-Popped : (q : List (Event A)) → PoppedFrom q (pop q)
  unfolding pop
  pop-Popped [] = refl
  pop-Popped (e ∷ es) = pop_step e es (pop es) refl (pop-Popped es)

  -- What was fired by a time: all that was due, and the rest is due later.
  pub record Fired (time : ℕ) (q fired left : List (Event A)) : Type 0 where
    pub due : All (λ e. e.deadline ≤ time) fired
    pub later : All (λ e. time < e.deadline) left
    pub same : Permᴰ (fired ++ left) q

  fire_step :
      (fuel time : ℕ) (q : List (Event A)) (found : Option (Event A × List (Event A)))
      → pop q ≡ found
      → PoppedFrom q found
      → ((event : Event A) (rest : List (Event A))
          → found ≡ some (event, rest)
          → Fired time rest (fire_within fuel time rest).0 (fire_within fuel time rest).1)
      → Fired time q (fire_within (suc fuel) time q).0 (fire_within (suc fuel) time q).1
  unfolding fire_within
  fire_step fuel time q none g h next =
      rw (g, fire_within, h) (record { due = tt; later = tt; same = Permᴰ.refl [] })
  fire_step fuel time q (some (event, rest)) g h next =
      elim (Bool-cases (ltb time event.deadline)) [
        | inl late ↦
            let lt : time < event.deadline = grind arith in
            rw (g, fire_within, late)
              (record {
                due = tt;
                later =
                    All-Permᴰ (λ x. time < x.deadline) h.same
                      (
                        lt,
                        All-imp (λ x. event.deadline ≤ x.deadline) (λ x. time < x.deadline) rest
                            (λ x k. omega arith) h.least,
                      );
                same = Permᴰ.refl q;
              })
        | inr on_time ↦
            let le : event.deadline ≤ time = grind arith in
            let f = next event rest refl in
            rw (g, fire_within, on_time)
              (record {
                due = (le, f.due);
                later = f.later;
                same = Permᴰ.trans (Permᴰ.cons refl f.same) h.same;
              })
      ]

  Popped-length :
      (q : List (Event A)) (fuel : ℕ) (found : Option (Event A × List (Event A)))
      → PoppedFrom q found
      → length q ≤ suc fuel
      → (event : Event A) (rest : List (Event A)) → found ≡ some (event, rest)
      → length rest ≤ fuel
  Popped-length q fuel none h le event rest g = cc
  Popped-length q fuel (some (top, others)) h le event rest g =
      let same : others ≡ rest =
        (let pair : ◌≡◌ {A = Event A × List (Event A)} (top, others) (event, rest) = cc in
          ap (λ p. p.1) pair) in
      let counted = h.counted in subst (λ k. length k ≤ fuel) same (omega arith)

  fire_within-Fired :
      (fuel time : ℕ) (q : List (Event A))
      → length q ≤ fuel
      → Fired time q (fire_within fuel time q).0 (fire_within fuel time q).1
  unfolding fire_within
  fire_within-Fired zero time [] h = record { due = tt; later = tt; same = Permᴰ.refl [] }
  fire_within-Fired zero time (e ∷ q) h = absurd (omega arith)
  fire_within-Fired (suc fuel) time q h =
      fire_step fuel time q (pop q) refl (pop-Popped q) (λ event rest g.
        fire_within-Fired fuel time rest
          (Popped-length q fuel (pop q) (pop-Popped q) h event rest g))

  -- What an advance does: it goes to the earliest deadline and fires just the timers of that deadline.
  pub record Advanced (r r' : TimeRuntime A) (fired : List (Event A)) : Type 0 where
    pub forward : now r.clock ≤ now r'.clock
    pub earliest : All (λ e. e.deadline ≡ now r'.clock) fired
    pub later : All (λ e. now r'.clock < e.deadline) r'.timer.queue
    pub same : Permᴰ (fired ++ r'.timer.queue) r.timer.queue
    pub some_fired : fired ≢ []

  -- An advance with no timer changes nothing and says so; any other one advances.
  abbrev pub AdvancedTo : TimeRuntime A → (Bool × List (Event A)) × TimeRuntime A → Type 0
  AdvancedTo r ((true, fired), r') = Advanced r r' fired
  AdvancedTo r ((false, fired), r') = (r' ≡ r) × (fired ≡ []) × (r.timer.queue ≡ [])

  exactly_due :
      (time : ℕ) (fired left : List (Event A))
      → All (λ e. e.deadline ≤ time) fired
      → NotBefore time (fired ++ left)
      → All (λ e. e.deadline ≡ time) fired
  exactly_due time [] left h k = tt
  exactly_due time (e ∷ fired) left h k =
      let le = h.0 in let ge = k.0 in (omega arith, exactly_due time fired left h.1 k.1)

  first_is_fired :
      (event : Event A) (rest fired left : List (Event A))
      → Permᴰ (fired ++ left) (event ∷ rest)
      → All (λ e. event.deadline < e.deadline) left
      → fired ≢ []
  first_is_fired event rest [] left same later h =
      let late = (All-Permᴰ (λ e. event.deadline < e.deadline) same later).0 in absurd (omega arith)
  first_is_fired event rest (x ∷ fired) left same later h = cc

  Fired-Advanced :
      (r : TimeRuntime A) (event : Event A) (rest fired left : List (Event A))
      → Popped r.timer.queue event rest
      → NotBefore (now r.clock) r.timer.queue
      → Fired event.deadline r.timer.queue fired left
      → Advanced r
          (record { timer = record { queue = left }; clock = set_clock event.deadline r.clock })
          fired
  Fired-Advanced r event rest fired left p early f =
      let ahead : now r.clock ≤ event.deadline =
        (All-Permᴰ (λ e. now r.clock ≤ e.deadline) (Permᴰ.symm p.same) early).0 in
      let reached = set_clock-now event.deadline r.clock ahead in
      let least =
        All-Permᴰ (λ e. event.deadline ≤ e.deadline) (Permᴰ.trans p.same (Permᴰ.symm f.same))
          (omega arith, p.least) in
      record {
        forward = subst (λ t. now r.clock ≤ t) (sym reached) ahead;
        earliest =
            subst (λ t. All (λ e. e.deadline ≡ t) fired) (sym reached)
              (exactly_due event.deadline fired left f.due least);
        later = subst (λ t. All (λ e. t < e.deadline) left) (sym reached) f.later;
        same = f.same;
        some_fired =
            first_is_fired event rest fired left (Permᴰ.trans f.same (Permᴰ.symm p.same)) f.later;
      }

  advance_step :
      (r : TimeRuntime A) (found : Option (Event A × List (Event A)))
      → pop r.timer.queue ≡ found
      → PoppedFrom r.timer.queue found
      → NotBefore (now r.clock) r.timer.queue
      → AdvancedTo r (advance r)
  unfolding advance next_time fire
  advance_step r none g h early = rw (g, advance, next_time) (refl, refl, h)
  advance_step r (some (event, rest)) g h early =
      let f = fire_within-Fired (length r.timer.queue) event.deadline r.timer.queue (omega arith) in
      rw (g, advance, next_time) (Fired-Advanced r event rest _ _ h early f)

  -- When no timer is due before the clock's time, an advance with no timer changes nothing and says so,
  -- and any other one moves the clock forward to the earliest deadline, fires just the timers of that
  -- deadline and keeps the others.
  pub advance-AdvancedTo :
      (r : TimeRuntime A) → NotBefore (now r.clock) r.timer.queue → AdvancedTo r (advance r)
  advance-AdvancedTo r early =
      advance_step r (pop r.timer.queue) refl (pop-Popped r.timer.queue) early
