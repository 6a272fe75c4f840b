-- ===== src/Dst/Network/Routed.antt =====
-- What the network of crates/stratamoto-dst/src/net does with its messages.
use stratamoto.Base.{
  ℕ, ◌+◌, ◌≤◌, ◌<◌, ◌≡◌, ◌⊎◌, inl, inr, refl, ap, ◌∙◌, Bool, true, false, List, length, Option,
  none, some, if◌then◌else◌, contains, contains-set_insert, map_get, ◌==◌, ==_iff, Bool-cases, ok,
  arith, All,
}
use stratamoto.Dst.Time.{now, push, add_timer}
use stratamoto.Dst.Time.Advances.{NotBefore}
use stratamoto.Dst.Network.{
  Random, InRange, Network, unclog, connect, is_lost, schedule, send_unless, send,
}

-- Every message under way goes to a channel and is not due before the clock's time, the range of the latency is not empty, and
-- endpoints have channels.
pub record IsRouted {R P : Type 0} (n : Network R P) : Type 0 where
  pub in_time : NotBefore (now n.time.clock) n.time.timer.queue
  pub under_way : All (λ e. e.callback.channel < length n.channels) n.time.timer.queue
  pub latency : n.config.low_latency < n.config.high_latency
  pub endpoints_known : (a c : ℕ) → map_get a n.endpoints ≡ some c → c < length n.channels

module _ {R P : Type 0} where
  module _ (G : Random R P) where
    -- A message is lost: its receiver has no endpoint, one side is clogged, or the network fails.
    abbrev pub IsLost : ℕ → ℕ → Network R P → Type 0
    IsLost src dst n =
        (map_get dst n.endpoints ≡ none)
        ⊎ ((contains n.clogged src ≡ true)
            ⊎ ((contains n.clogged dst ≡ true)
                ⊎ ((G.should_fault n.config.packet_loss_rate n.rand).0 ≡ true)))

    -- What a send does: the message is dropped where it is lost, or it is under way to the channel of its
    -- receiver.
    pub data Sent (src dst tag : ℕ) (bytes : List ℕ) (n : Network R P) : Network R P → Type 0 where
      dropped : (r : R) → IsLost src dst n → Sent src dst tag bytes n (record n { rand = r })
      on_its_way :
          (r : R) (channel deadline : ℕ)
          → map_get dst n.endpoints ≡ some channel
          → contains n.clogged src ≡ false
          → contains n.clogged dst ≡ false
          → (G.should_fault n.config.packet_loss_rate n.rand).0 ≡ false
          → now n.time.clock + n.config.low_latency ≤ deadline
          → deadline < now n.time.clock + n.config.high_latency
          → Sent src dst tag bytes n (record n {
            rand = r;
            time =
                add_timer deadline
                  (record {
                    channel = channel;
                    message = record { tag = tag; bytes = bytes; from = src };
                  })
                  n.time;
          })

    unless-Sent :
        (src dst tag channel : ℕ) (bytes : List ℕ) (n : Network R P) (r : R) (lost : Bool)
        → InRange G
        → n.config.low_latency < n.config.high_latency
        → map_get dst n.endpoints ≡ some channel
        → contains n.clogged src ≡ false
        → contains n.clogged dst ≡ false
        → (G.should_fault n.config.packet_loss_rate n.rand).0 ≡ lost
        → Sent src dst tag bytes n (
            send_unless G lost channel
              (record { tag = tag; bytes = bytes; from = src })
              (record n { rand = r }))
    unfolding send_unless schedule
    unless-Sent src dst tag channel bytes n r true law range g a b f = dropped r (inr (inr (inr f)))
    unless-Sent src dst tag channel bytes n r false law range g a b f =
        let drawn = law n.config.low_latency n.config.high_latency r range in
        on_its_way _ channel _ g a b f (let low = drawn.0 in omega arith)
          (let high = drawn.1 in omega arith)

    -- A send from an endpoint.
    sent_to-Sent :
        (src dst tag c : ℕ) (bytes : List ℕ) (n : Network R P) (o : Option ℕ)
        → InRange G
        → n.config.low_latency < n.config.high_latency
        → map_get src n.endpoints ≡ some c
        → map_get dst n.endpoints ≡ o
        → (n' : Network R P) × (send G src dst tag bytes n ≡ ok n') × Sent src dst tag bytes n n'
    unfolding send is_lost send_unless
    sent_to-Sent src dst tag c bytes n none law range gs gd =
        (n, rw (gs, send, gd) refl, dropped n.rand (inl gd))
    sent_to-Sent src dst tag c bytes n (some channel) law range gs gd =
        elim (Bool-cases (contains n.clogged src)) [
          | inl a ↦ (n, rw (gs, send, gd, a) refl, dropped n.rand (inr (inl a)))
          | inr a ↦ elim (Bool-cases (contains n.clogged dst)) [
            | inl b ↦ (n, rw (gs, send, gd, a, b) refl, dropped n.rand (inr (inr (inl b))))
            | inr b ↦
                let (lost, r) = G.should_fault n.config.packet_loss_rate n.rand in
                (
                  _,
                  rw (gs, send, gd, a, b) refl,
                  unless-Sent src dst tag channel bytes n r lost law range gd a b refl,
                )
          ]
        ]

    pub send-Sent :
        (src dst tag c : ℕ) (bytes : List ℕ) (n : Network R P)
        → InRange G
        → n.config.low_latency < n.config.high_latency
        → map_get src n.endpoints ≡ some c
        → (n' : Network R P) × (send G src dst tag bytes n ≡ ok n') × Sent src dst tag bytes n n'
    send-Sent src dst tag c bytes n law range gs =
        sent_to-Sent src dst tag c bytes n (map_get dst n.endpoints) law range gs refl

    -- What was sent leaves a routed network routed.
    pub Sent-IsRouted :
        (src dst tag : ℕ) (bytes : List ℕ) (n n' : Network R P)
        → Sent src dst tag bytes n n'
        → IsRouted n
        → IsRouted n'
    unfolding add_timer push
    Sent-IsRouted src dst tag bytes n _ (dropped r l) h = record {
      in_time = h.in_time;
      under_way = h.under_way;
      latency = h.latency;
      endpoints_known = h.endpoints_known;
    }
    Sent-IsRouted src dst tag bytes n _ (on_its_way r channel deadline g a b f low high) h =
        record {
          in_time = (omega arith, h.in_time);
          under_way = (h.endpoints_known dst channel g, h.under_way);
          latency = h.latency;
          endpoints_known = h.endpoints_known;
        }

    connect-clogged : (addr : ℕ) (n : Network R P) → contains (connect addr n).clogged addr ≡ true
    unfolding connect unclog
    connect-clogged addr n =
        contains-set_insert addr addr n.clogged
        ∙ (let same : (addr == addr) ≡ true = (==_iff addr addr).1 refl in
            ap (λ b. if b then true else contains n.clogged addr) same)

    send_to_clogged :
        (src dst tag c : ℕ) (bytes : List ℕ) (n : Network R P) (o : Option ℕ)
        → map_get src n.endpoints ≡ some c
        → map_get dst n.endpoints ≡ o
        → contains n.clogged dst ≡ true
        → send G src dst tag bytes n ≡ ok n
    unfolding send is_lost send_unless
    send_to_clogged src dst tag c bytes n none gs gd h = rw (gs, send, gd) refl
    send_to_clogged src dst tag c bytes n (some channel) gs gd h =
        elim (Bool-cases (contains n.clogged src)) [
          | inl a ↦ rw (gs, send, gd, a) refl
          | inr a ↦ rw (gs, send, gd, a, h) refl
        ]

    -- Connecting an address leaves it clogged: what an endpoint then sends to it is dropped.
    pub send-connect :
        (src addr tag c : ℕ) (bytes : List ℕ) (n : Network R P)
        → map_get src n.endpoints ≡ some c
        → send G src addr tag bytes (connect addr n) ≡ ok (connect addr n)
    unfolding connect unclog
    send-connect src addr tag c bytes n gs =
        send_to_clogged src addr tag c bytes (connect addr n) (map_get addr n.endpoints) gs refl
          (connect-clogged addr n)
