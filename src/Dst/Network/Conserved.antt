-- ===== src/Dst/Network/Conserved.antt =====
-- An advance of the network of crates/stratamoto-dst/src/net and the messages that it delivers.
use stratamoto.Base.{
  ℕ, zero, suc, ◌+◌, ◌≤◌, ◌<◌, ◌≡◌, refl, ap, sym, ◌∙◌, subst, Bool, true, false, List, [], ◌∷◌,
  ◌++◌, length, get_elem?, set, some, map_get, arith, All, All-imp, length-set, get_elem?-exists,
}
use mathlib.Core.List.{Permᴰ}
use mathlib.Core.List.Permᴰ
use stratamoto.Dst.Time.{Event, TimeRuntime, now, advance}
use stratamoto.Dst.Time.Advances.{AdvancedTo, All-Permᴰ, advance-AdvancedTo}
use stratamoto.Dst.Network.{
  Message, Sending, Network, deliver, deliver_all, settle, advance_network,
}
use stratamoto.Dst.Network.Routed.{IsRouted}

-- the messages of a channel's queue, with the channel's number
abbrev pub waiting : ℕ → List Message → List Sending
waiting channel [] = []
waiting channel (m ∷ ms) = record { channel = channel; message = m } ∷ waiting channel ms

-- the messages that were delivered and not received, with their channels
abbrev pub delivered : ℕ → List (List Message) → List Sending
delivered channel [] = []
delivered channel (q ∷ qs) = waiting channel q ++ delivered (suc channel) qs

-- the messages of events
abbrev pub under_way_of : List (Event Sending) → List Sending
under_way_of [] = []
under_way_of (e ∷ es) = e.callback ∷ under_way_of es

-- the messages of a network with the channels that they go to: those under way and those delivered
abbrev pub messages : {R P : Type 0} → Network R P → List Sending
messages n = under_way_of n.time.timer.queue ++ delivered 0 n.channels

waiting-append :
    (channel : ℕ) (q : List Message) (m : Message)
    → Permᴰ
        (waiting channel (q ++ m ∷ []))
        (record { channel = channel; message = m } ∷ waiting channel q)
waiting-append channel [] m = Permᴰ.refl _
waiting-append channel (x ∷ q) m =
    Permᴰ.trans (Permᴰ.cons refl (waiting-append channel q m)) (Permᴰ.swap refl refl)

delivered-set :
    (first : ℕ) (qs : List (List Message)) (k : ℕ) (q : List Message) (m : Message)
    → get_elem? qs k ≡ some q
    → Permᴰ
        (delivered first (set qs k (q ++ m ∷ [])))
        (record { channel = first + k; message = m } ∷ delivered first qs)
delivered-set first [] k q m h = cc
delivered-set first (r ∷ qs) zero q m h =
    let same : q ≡ r = cc in
    let here : first ≡ first + 0 = omega arith in
    subst
      (λ c.
        Permᴰ (waiting first (q ++ m ∷ []) ++ delivered (suc first) qs)
          (record { channel = c; message = m } ∷ waiting first r ++ delivered (suc first) qs))
      here
      (subst
        (λ y.
          Permᴰ (waiting first (q ++ m ∷ []) ++ delivered (suc first) qs)
            (record { channel = first; message = m } ∷ waiting first y ++ delivered (suc first) qs))
        same (Permᴰ.append_right (delivered (suc first) qs) (waiting-append first q m)))
delivered-set first (r ∷ qs) (suc k) q m h =
    let there : suc first + k ≡ first + suc k = omega arith in
    subst
      (λ c.
        Permᴰ (waiting first r ++ delivered (suc first) (set qs k (q ++ m ∷ [])))
          (record { channel = c; message = m } ∷ waiting first r ++ delivered (suc first) qs))
      there
      (Permᴰ.trans (Permᴰ.append_left (waiting first r) (delivered-set (suc first) qs k q m h))
        (Permᴰ.middle _ (waiting first r) (delivered (suc first) qs)))

deliver-Permᴰ :
    (qs : List (List Message)) (d : Sending)
    → d.channel < length qs
    → Permᴰ (delivered 0 (deliver qs d)) (d ∷ delivered 0 qs) × (length (deliver qs d) ≡ length qs)
unfolding deliver
deliver-Permᴰ qs d h =
    let (q, at) = get_elem?-exists qs d.channel h in
    let same : 0 + d.channel ≡ d.channel = omega arith in
    rw (at, deliver)
      (
        subst
            (λ c.
              Permᴰ (delivered 0 (set qs d.channel (q ++ d.message ∷ [])))
                (record { channel = c; message = d.message } ∷ delivered 0 qs))
            same (delivered-set 0 qs d.channel q d.message at),
        length-set qs d.channel (q ++ d.message ∷ []),
      )

deliver_all-Permᴰ :
    (qs : List (List Message)) (es : List (Event Sending))
    → All (λ e. e.callback.channel < length qs) es
    → Permᴰ (delivered 0 (deliver_all qs es)) (under_way_of es ++ delivered 0 qs)
      × (length (deliver_all qs es) ≡ length qs)
unfolding deliver_all
deliver_all-Permᴰ qs [] h = (Permᴰ.refl _, refl)
deliver_all-Permᴰ qs (e ∷ es) h =
    let (one, same) = deliver-Permᴰ qs e.callback h.0 in
    let (rest, kept) =
      deliver_all-Permᴰ (deliver qs e.callback) es
        (subst (λ k. All (λ x. x.callback.channel < k) es) (sym same) h.1) in
    (
      Permᴰ.trans rest (
          Permᴰ.trans (Permᴰ.append_left (under_way_of es) one)
            (Permᴰ.middle e.callback (under_way_of es) (delivered 0 qs))),
      kept ∙ same,
    )

under_way_of-Permᴰ :
    {es fs : List (Event Sending)} → Permᴰ es fs → Permᴰ (under_way_of es) (under_way_of fs)
under_way_of-Permᴰ Permᴰ.nil = Permᴰ.refl _
under_way_of-Permᴰ (Permᴰ.cons e d) = Permᴰ.cons (ap (λ x. x.callback) e) (under_way_of-Permᴰ d)
under_way_of-Permᴰ (Permᴰ.swap e f) = Permᴰ.swap (ap (λ x. x.callback) e) (ap (λ x. x.callback) f)
under_way_of-Permᴰ (Permᴰ.trans d f) = Permᴰ.trans (under_way_of-Permᴰ d) (under_way_of-Permᴰ f)

-- What is under way of fired and kept events, with what was delivered.
under_way_of-append :
    (fired queue : List (Event Sending)) (rest : List Sending)
    → under_way_of (fired ++ queue) ++ rest ≡ under_way_of fired ++ (under_way_of queue ++ rest)
under_way_of-append [] queue rest = refl
under_way_of-append (e ∷ fired) queue rest =
    ap (λ xs. e.callback ∷ xs) (under_way_of-append fired queue rest)

-- The fired messages move in front of those that are still under way.
fired_first : (xs ys zs : List Sending) → Permᴰ (xs ++ (ys ++ zs)) (ys ++ (xs ++ zs))
fired_first [] ys zs = Permᴰ.refl _
fired_first (x ∷ xs) ys zs =
    Permᴰ.trans (Permᴰ.cons refl (fired_first xs ys zs)) (Permᴰ.symm (Permᴰ.middle x ys (xs ++ zs)))

All-append_parts :
    {A : Type 0} (P : A → Type 0) (xs ys : List A) → All P (xs ++ ys) → All P xs × All P ys
All-append_parts P [] ys h = (tt, h)
All-append_parts P (x ∷ xs) ys h = let (a, b) = All-append_parts P xs ys h.1 in ((h.0, a), b)

module _ {R P : Type 0} where
  known_after :
      (n : Network R P) (m : ℕ)
      → m ≡ length n.channels
      → IsRouted n
      → (a c : ℕ) → map_get a n.endpoints ≡ some c
      → c < m
  known_after n m same h a c g = subst (λ k. c < k) (sym same) (h.endpoints_known a c g)

  -- A network after an advance is routed, and has the same messages for the same channels.
  abbrev Kept : Network R P → Network R P → Type 0
  Kept n n' = IsRouted n' × Permᴰ (messages n') (messages n)

  settle-Kept :
      (n : Network R P) (out : (Bool × List (Event Sending)) × TimeRuntime Sending)
      → AdvancedTo n.time out
      → IsRouted n
      → Kept n (settle n out).1
  unfolding settle deliver_all
  settle-Kept n ((true, fired), t) a h =
      let queue = t.timer.queue in
      let before = delivered 0 n.channels in
      let (now_fired, still) =
        All-append_parts (λ e. e.callback.channel < length n.channels) fired queue
          (All-Permᴰ (λ e. e.callback.channel < length n.channels) (Permᴰ.symm a.same)
            h.under_way) in
      let (arrived, same) = deliver_all-Permᴰ n.channels fired now_fired in
      (
        record {
          in_time =
              All-imp (λ e. now t.clock < e.deadline) (λ e. now t.clock ≤ e.deadline) queue
                (λ e k. omega arith) a.later;
          under_way = subst (λ k. All (λ e. e.callback.channel < k) queue) (sym same) still;
          latency = h.latency;
          endpoints_known = known_after n (length (deliver_all n.channels fired)) same h;
        },
        Permᴰ.trans (Permᴰ.append_left (under_way_of queue) arrived) (
            Permᴰ.trans (fired_first (under_way_of queue) (under_way_of fired) before) (
              subst (λ xs. Permᴰ xs (messages n)) (under_way_of-append fired queue before)
                (Permᴰ.append_right before (under_way_of-Permᴰ a.same)))),
      )
  settle-Kept n ((false, fired), t) (still, nothing, _) h =
      rw (still, nothing) (h, Permᴰ.refl (messages n))

  -- An advance of a routed network leaves it routed, and neither loses nor doubles nor changes a message.
  pub advance_network-Kept : (n : Network R P) → IsRouted n → Kept n (advance_network n).1
  unfolding advance_network
  advance_network-Kept n h = settle-Kept n (advance n.time) (advance-AdvancedTo n.time h.in_time) h
