-- ===== src/Dst/Network.antt =====
-- crates/stratamoto-dst/src/net: the network between the simulated hosts.
-- An address is a number. The unbounded channel of an endpoint is a list of what was delivered, kept
-- in a store under the number that its sender holds. A message under way is the callback of its timer.
-- The random numbers are the record `Random`, over a state; the loss rate is a value that only they
-- read.
pub mod Routed
pub mod Conserved
pub mod Reachable
use stratamoto.Base.{
  ℕ, zero, suc, ◌+◌, ◌≤◌, ◌<◌, ◌≡◌, Bool, true, false, not, ◌||◌, List, [], ◌∷◌, ◌++◌, length, take,
  get_elem?, set, Option, none, some, if◌then◌else◌, contains, set_insert, map_get, map_insert,
  Result, ok, err, panic, ◌>>=◌,
}
use stratamoto.Dst.Time.{Event, Timer, TimeRuntime, new_time, now, add_timer, advance}

pub record Message : Type 0 where
  pub tag : ℕ
  pub bytes : List ℕ
  pub from : ℕ

-- a message on its way to a channel
pub record Sending : Type 0 where
  pub channel : ℕ
  pub message : Message

-- `gen_bool` and `gen_range` of the library of random numbers
pub record Random (R P : Type 0) : Type 0 where
  pub should_fault : P → R → Bool × R
  pub gen_range : ℕ → ℕ → R → ℕ × R

-- A draw from a range that is not empty is in it.
abbrev pub InRange : {R P : Type 0} → Random R P → Type 0
InRange {R} G =
    (low high : ℕ) (r : R)
    → low < high
    → (low ≤ (G.gen_range low high r).0) × ((G.gen_range low high r).0 < high)

-- the loss rate, and the range of the latency
pub record Config (P : Type 0) : Type 0 where
  pub packet_loss_rate : P
  pub low_latency : ℕ
  pub high_latency : ℕ

-- `Config::default`, of the rate 0.0
abbrev pub default_config : {P : Type 0} → P → Config P
default_config zero_rate = record {
  packet_loss_rate = zero_rate;
  low_latency = 1;
  high_latency = 10;
}

pub record Network (R P : Type 0) : Type 0 where
  pub rand : R
  pub time : TimeRuntime Sending
  pub config : Config P
  pub endpoints : List (ℕ × ℕ)
  pub channels : List (List Message)
  pub clogged : List ℕ

-- `try_send` of a timer's callback
unfoldable pub deliver : List (List Message) → Sending → List (List Message)
deliver channels d = elim (get_elem? channels d.channel) [
  | none ↦ channels
  | some queue ↦ set channels d.channel (queue ++ d.message ∷ [])
]

unfoldable pub deliver_all : List (List Message) → List (Event Sending) → List (List Message)
unfolding deliver
deliver_all channels [] = channels
deliver_all channels (e ∷ es) = deliver_all (deliver channels e.callback) es

-- `Network::new` with random numbers, at a moment
abbrev pub new_network : {R P : Type 0} → P → R → ℕ → Network R P
new_network zero_rate rand moment = record {
  rand = rand;
  time = new_time moment;
  config = default_config zero_rate;
  endpoints = [];
  channels = [];
  clogged = [];
}

module _ {R P : Type 0} where
  -- `Network::get`: the channel of an address
  unfoldable pub get : ℕ → Network R P → ℕ × Network R P
  get target n = elim (map_get target n.endpoints) [
    | some channel ↦ (channel, n)
    | none ↦
        let channel = length n.channels in
        (
          channel,
          record n {
            endpoints = map_insert target channel n.endpoints;
            channels = n.channels ++ [] ∷ [];
          },
        )
  ]

  -- `clog` and `unclog`, with `disconnect` and `connect` of `NetworkHandle`
  unfoldable pub clog : ℕ → Network R P → Network R P
  clog target n = record n { clogged = set_insert target n.clogged }

  unfoldable pub unclog : ℕ → Network R P → Network R P
  unclog target n = record n { clogged = set_insert target n.clogged }

  unfoldable pub disconnect : ℕ → Network R P → Network R P
  unfolding clog
  disconnect addr n = clog addr n

  unfoldable pub connect : ℕ → Network R P → Network R P
  unfolding unclog
  connect addr n = unclog addr n

  unfoldable pub set_packet_loss_rate : P → Network R P → Network R P
  set_packet_loss_rate rate n = record n { config = record n.config { packet_loss_rate = rate } }

  module _ (G : Random R P) where
    -- whether a message to a known endpoint is lost; only then is a random number drawn
    unfoldable pub is_lost : ℕ → ℕ → Network R P → Bool × Network R P
    is_lost src dst n =
        if contains n.clogged src || contains n.clogged dst
        then (true, n)
        else let (lost, r) = G.should_fault n.config.packet_loss_rate n.rand in
          (lost, record n { rand = r })

    -- the message under way to a channel
    unfoldable pub schedule : ℕ → Message → Network R P → Network R P
    schedule channel message n =
        let (latency, r) = G.gen_range n.config.low_latency n.config.high_latency n.rand in
        record n {
          rand = r;
          time =
              add_timer (now n.time.clock + latency)
                (record { channel = channel; message = message }) n.time;
        }

    unfoldable pub send_unless : Bool → ℕ → Message → Network R P → Network R P
    unfolding schedule
    send_unless lost channel message n = if lost then n else schedule channel message n

    unfoldable pub send : ℕ → ℕ → ℕ → List ℕ → Network R P → Result (Unit {0}) (Network R P)
    unfolding is_lost send_unless
    send src dst tag bytes n = elim (map_get src n.endpoints) [
      | none ↦ panic
      | some _ ↦ elim (map_get dst n.endpoints) [
        | none ↦ ok n
        | some channel ↦
            let (lost, n₁) = is_lost src dst n in
            ok (send_unless lost channel (record { tag = tag; bytes = bytes; from = src }) n₁)
      ]
    ]

  unfoldable pub settle :
      Network R P → (Bool × List (Event Sending)) × TimeRuntime Sending → Bool × Network R P
  unfolding deliver_all
  settle n ((going, fired), t) =
      (going, record n { time = t; channels = deliver_all n.channels fired })

  -- an advance of the clock, whose timers deliver
  unfoldable pub advance_network : Network R P → Bool × Network R P
  unfolding settle
  advance_network n = settle n (advance n.time)

  -- `try_recv` of a local handle on its channel
  unfoldable pub try_recv : ℕ → Network R P → Option (Message × Network R P)
  try_recv channel n = elim (get_elem? n.channels channel) [
    | none ↦ none
    | some [] ↦ none
    | some (m ∷ queue) ↦ some (m, record n { channels = set n.channels channel queue })
  ]

-- `recv_from` of a received message into a buffer: what is copied
unfoldable pub copied : ℕ → Message → List ℕ
copied size m = take size m.bytes
