-- ===== src/Dst/Time.antt =====
-- crates/stratamoto-dst/src/time: the clock, its timers, and the advance to the next of them.
-- A moment is a number. A timer's callback is a value of the caller: what `fire` gives is the events
-- whose callbacks it runs, in order. The standard library's heap is the list of its events, of which
-- a first one with the least deadline is at the top; it does not say which one where several are.
pub mod Advances
use stratamoto.Base.{
  ℕ, zero, suc, ◌+◌, ◌-◌, Bool, true, false, List, [], ◌∷◌, length, Option, none, some, ltb, leb,
  if◌then◌else◌,
}

pub record Event (A : Type 0) : Type 0 where
  pub deadline : ℕ
  pub callback : A

pub record Timer (A : Type 0) : Type 0 where
  pub queue : List (Event A)

-- what the clock shows when it is made, and how far it was advanced
pub record Clock : Type 0 where
  pub base : ℕ
  pub advanced : ℕ

pub record TimeRuntime (A : Type 0) : Type 0 where
  pub timer : Timer A
  pub clock : Clock

-- `TimeRuntime::new` at a moment
abbrev pub new_time : {A : Type 0} → ℕ → TimeRuntime A
new_time moment = record {
  timer = record { queue = [] };
  clock = record { base = moment; advanced = 0 };
}

-- `ClockHandle::now` and `ClockHandle::set`; a duration since a later moment is zero
abbrev pub now : Clock → ℕ
now c = c.base + c.advanced

abbrev pub set_clock : ℕ → Clock → Clock
set_clock time c = record c { advanced = time - c.base }

module _ {A : Type 0} where
  unfoldable pub push : ℕ → A → Timer A → Timer A
  push deadline callback t = record {
    queue = record { deadline = deadline; callback = callback } ∷ t.queue;
  }

  abbrev pub lesser : Event A → List (Event A) → Event A × List (Event A) → Event A × List (Event A)
  lesser e es (top, rest) = if leb e.deadline top.deadline then (e, es) else (top, e ∷ rest)

  -- `BinaryHeap::pop` in the order of the deadlines
  unfoldable pub pop : List (Event A) → Option (Event A × List (Event A))
  pop [] = none
  pop (e ∷ es) = elim (pop es) [ none ↦ some (e, []) | some top ↦ some (lesser e es top) ]

  unfoldable pub next_time : List (Event A) → Option ℕ
  unfolding pop
  next_time q = elim (pop q) [ none ↦ none | some top ↦ some top.0.deadline ]

  -- The loop of `fire`, with the number of events as fuel.
  unfoldable pub fire_within : ℕ → ℕ → List (Event A) → List (Event A) × List (Event A)
  unfolding pop
  fire_within zero time q = ([], q)
  fire_within (suc fuel) time q = elim (pop q) [
    | none ↦ ([], q)
    | some (event, rest) ↦
        let (fired, left) = fire_within fuel time rest in
        elim (ltb time event.deadline) [ true ↦ ([], q) | false ↦ (event ∷ fired, left) ]
  ]

  -- `fire`: the events whose callbacks run, and the timer after them
  unfoldable pub fire : ℕ → Timer A → List (Event A) × Timer A
  unfolding fire_within
  fire time t =
      let (fired, left) = fire_within (length t.queue) time t.queue in
      (fired, record { queue = left })

  -- `TimeRuntime::advance`
  unfoldable pub advance : TimeRuntime A → (Bool × List (Event A)) × TimeRuntime A
  unfolding next_time fire
  advance r = elim (next_time r.timer.queue) [
    | none ↦ ((false, []), r)
    | some time ↦
        let (fired, timer) = fire time r.timer in
        ((true, fired), record { timer = timer; clock = set_clock time r.clock })
  ]

  -- `TimeHandle::add_timer`
  unfoldable pub add_timer : ℕ → A → TimeRuntime A → TimeRuntime A
  unfolding push
  add_timer deadline callback r = record r { timer = push deadline callback r.timer }

  -- One poll of the future of `sleep_until`: whether it is ready, and the timer that wakes it where it
  -- is not.
  unfoldable pub poll_sleep : ℕ → A → TimeRuntime A → Bool × TimeRuntime A
  unfolding add_timer
  poll_sleep deadline waker r =
      if leb deadline (now r.clock) then (true, r) else (false, add_timer deadline waker r)
