-- ===== src/Dst/Network/Reachable.antt =====
-- The networks that the operations of crates/stratamoto-dst/src/net lead to.
use stratamoto.Base.{
  ℕ, ◌<◌, ◌≡◌, inl, inr, refl, ap, sym, ◌∙◌, subst, List, [], ◌∷◌, ◌++◌, length, get_elem?, set,
  Option, none, some, map_get, map_insert, map_get-map_insert, ◌==◌, Bool-cases, ok, arith, All,
  All-imp, length-append, length-set,
}
use mathlib.Core.List.{Permᴰ}
use stratamoto.Dst.Network.{
  Message, Random, InRange, Network, new_network, get, connect, disconnect, clog, unclog,
  set_packet_loss_rate, send, advance_network, try_recv,
}
use stratamoto.Dst.Network.Routed.{IsRouted, send-Sent, Sent-IsRouted}
use stratamoto.Dst.Network.Conserved.{messages, advance_network-Kept}

module _ {R P : Type 0} (G : Random R P) where
  -- One operation of a handle, or an advance of the clock.
  pub data Step (n : Network R P) : Network R P → Type 0 where
    opens : (target : ℕ) → Step n (get target n).1
    connects : (addr : ℕ) → Step n (connect addr n)
    disconnects : (addr : ℕ) → Step n (disconnect addr n)
    sets_rate : (rate : P) → Step n (set_packet_loss_rate rate n)
    sends :
        (src dst tag : ℕ) (bytes : List ℕ) (n' : Network R P)
        → send G src dst tag bytes n ≡ ok n'
        → Step n n'
    receives :
        (channel : ℕ) (m : Message) (n' : Network R P)
        → try_recv channel n ≡ some (m, n')
        → Step n n'
    advances : Step n (advance_network n).1

  -- What a sequence of operations leads to from a new network.
  pub data Reachable : Network R P → Type 0 where
    starts : (rate : P) (rand : R) (moment : ℕ) → Reachable (new_network rate rand moment)
    steps : {n n' : Network R P} → Reachable n → Step n n' → Reachable n'

  new_network-IsRouted :
      (rate : P) (rand : R) (moment : ℕ) → IsRouted (new_network {P = P} rate rand moment)
  unfolding map_get
  new_network-IsRouted rate rand moment = record {
    in_time = tt;
    under_way = tt;
    latency = omega arith;
    endpoints_known = λ a c g. absurd (let no : none ≡ some c = g in cc);
  }

  -- An endpoint that was opened has the new channel, and the others keep theirs.
  opened_known :
      (n : Network R P) (target a c : ℕ)
      → IsRouted n
      → map_get a (map_insert target (length n.channels) n.endpoints) ≡ some c
      → c < length (n.channels ++ [] ∷ [])
  opened_known n target a c h known =
      let more = length-append n.channels ([] ∷ []) in
      let looked = sym (map_get-map_insert target a (length n.channels) n.endpoints) ∙ known in
      elim (Bool-cases (target == a)) [
        | inl here ↦
            let found = (rw here at looked) in let same : length n.channels ≡ c = cc in omega arith
        | inr other ↦
            let found = (rw other at looked) in let lt = h.endpoints_known a c found in omega arith
      ]

  opened-IsRouted :
      (target : ℕ) (n : Network R P) (o : Option ℕ)
      → map_get target n.endpoints ≡ o
      → IsRouted n
      → IsRouted (get target n).1
  unfolding get
  opened-IsRouted target n (some channel) g h = rw (g, get) h
  opened-IsRouted target n none g h =
      let more = length-append n.channels ([] ∷ []) in
      rw (g, get)
        (record {
          in_time = h.in_time;
          under_way =
              All-imp (λ e. e.callback.channel < length n.channels)
                (λ e. e.callback.channel < length (n.channels ++ [] ∷ [])) n.time.timer.queue
                (λ e k. omega arith) h.under_way;
          latency = h.latency;
          endpoints_known = λ a c known. opened_known n target a c h known;
        })

  received_network :
      {x m : Message} {n n' : Network R P}
      → ◌≡◌ {A = Option (Message × Network R P)} (some (x, n)) (some (m, n'))
      → n ≡ n'
  received_network {x} {m} {n} {n'} h =
      let pair : ◌≡◌ {A = Message × Network R P} (x, n) (m, n') = cc in ap (λ p. p.1) pair

  taken-IsRouted :
      (channel : ℕ) (queue : List Message) (n : Network R P)
      → IsRouted n
      → IsRouted (record n { channels = set n.channels channel queue })
  taken-IsRouted channel queue n h =
      let same = sym (length-set n.channels channel queue) in
      record {
        in_time = h.in_time;
        under_way =
            subst (λ k. All (λ e. e.callback.channel < k) n.time.timer.queue) same h.under_way;
        latency = h.latency;
        endpoints_known = λ a c g. subst (λ k. c < k) same (h.endpoints_known a c g);
      }

  received-IsRouted :
      (channel : ℕ) (n n' : Network R P) (m : Message) (o : Option (List Message))
      → get_elem? n.channels channel ≡ o
      → try_recv channel n ≡ some (m, n')
      → IsRouted n
      → IsRouted n'
  unfolding try_recv
  received-IsRouted channel n n' m none g e h = let no = (rw (g, try_recv) at e) in cc
  received-IsRouted channel n n' m (some []) g e h = let no = (rw (g, try_recv) at e) in cc
  received-IsRouted channel n n' m (some (x ∷ queue)) g e h =
      let same = (rw (g, try_recv) at e) in
      let moved : record n { channels = set n.channels channel queue } ≡ n' =
        received_network same in
      subst IsRouted moved (taken-IsRouted channel queue n h)

  sent-IsRouted :
      (src dst tag : ℕ) (bytes : List ℕ) (n n' : Network R P) (o : Option ℕ)
      → InRange G
      → map_get src n.endpoints ≡ o
      → send G src dst tag bytes n ≡ ok n'
      → IsRouted n
      → IsRouted n'
  unfolding send
  sent-IsRouted src dst tag bytes n n' none law g e h = let no = (rw (g, send) at e) in cc
  sent-IsRouted src dst tag bytes n n' (some c) law g e h =
      let (n₂, made, sent) = send-Sent G src dst tag c bytes n law h.latency g in
      let same : n₂ ≡ n' = cc in subst IsRouted same (Sent-IsRouted G src dst tag bytes n n₂ sent h)

  Step-IsRouted : (n n' : Network R P) → InRange G → Step n n' → IsRouted n → IsRouted n'
  unfolding connect disconnect clog unclog set_packet_loss_rate
  Step-IsRouted n _ law (opens target) h =
      opened-IsRouted target n (map_get target n.endpoints) refl h
  Step-IsRouted n _ law (connects addr) h = record {
    in_time = h.in_time;
    under_way = h.under_way;
    latency = h.latency;
    endpoints_known = h.endpoints_known;
  }
  Step-IsRouted n _ law (disconnects addr) h = record {
    in_time = h.in_time;
    under_way = h.under_way;
    latency = h.latency;
    endpoints_known = h.endpoints_known;
  }
  Step-IsRouted n _ law (sets_rate rate) h = record {
    in_time = h.in_time;
    under_way = h.under_way;
    latency = h.latency;
    endpoints_known = h.endpoints_known;
  }
  Step-IsRouted n _ law (sends src dst tag bytes n' e) h =
      sent-IsRouted src dst tag bytes n n' (map_get src n.endpoints) law refl e h
  Step-IsRouted n _ law (receives channel m n' e) h =
      received-IsRouted channel n n' m (get_elem? n.channels channel) refl e h
  Step-IsRouted n _ law advances h = (advance_network-Kept n h).0

  all-IsRouted : (n : Network R P) → InRange G → Reachable n → IsRouted n
  all-IsRouted n law (starts rate rand moment) = new_network-IsRouted rate rand moment
  all-IsRouted n law (steps r s) = Step-IsRouted _ n law s (all-IsRouted _ law r)

  -- Whatever operations a new network goes through, where draws are in their ranges, every message
  -- under way goes to a channel and is not due before the clock's time, endpoints have channels, and
  -- after an advance of the clock the messages under way or delivered, each with its channel, are a
  -- permutation of those before it.
  pub Reachable-IsRouted :
      (n : Network R P)
      → InRange G
      → Reachable n
      → IsRouted n × Permᴰ (messages (advance_network n).1) (messages n)
  Reachable-IsRouted n law r = let h = all-IsRouted n law r in (h, (advance_network-Kept n h).1)
