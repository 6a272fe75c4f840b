-- ===== src/Harness/Events/States.antt =====
-- How a received frame moves the state of a connection of crates/stratamoto/src/events.rs.
use stratamoto.Base.{
  ℕ, ◌≤◌, ◌≡◌, ◌≢◌, ◌↔◌, ◌⊎◌, inl, inr, refl, ap, subst, Bool, true, false, List, [], ◌∷◌, ◌++◌,
  ◌==◌, ==_iff, Bool-cases, if◌then◌else◌, arith,
}
use stratamoto.Harness.Errors.{Error}
use stratamoto.Harness.Frames.{
  AnyMessage, MessageBody, setup_connection_success, setup_connection_error, reconnect,
  other_message, Frame,
}
use stratamoto.Harness.Events.{
  Event, setup_success, setup_error, reconnect_to, other, unknown, malformed, HeaderIssue, bit_set,
  bit_missing, SetupState, unsent, pending, established, rejected, unexpected, ConnectionState,
  apply_to, answer_state, apply, observe, event_of, check_channel_bit, classify, keep_event,
  dispatch, bool_eq, known_message_type,
}

-- The events of decoded messages that answer no setup.
abbrev pub IsOtherwise : Event → Type 0
IsOtherwise (reconnect_to _ _) = Unit
IsOtherwise (other _) = Unit
IsOtherwise _ = ⊥

-- The events of frames that have no message.
abbrev pub IsUnread : Event → Type 0
IsUnread (unknown _ _ _) = Unit
IsUnread (malformed _ _ _) = Unit
IsUnread _ = ⊥

-- The types of the messages of the common, the mining, the job declaration and the template distribution
-- protocol.
abbrev pub HasType : ℕ → Type 0
HasType t = (t ≤ 4) ⊎ (((16 ≤ t) × (t ≤ 37)) ⊎ (((80 ≤ t) × (t ≤ 96)) ⊎ ((112 ≤ t) × (t ≤ 118))))

-- The event that tells of a frame: the message that it carries; or, where nothing was decoded, that it is
-- of no known type or malformed; a frame of another extension is of no known type.
pub data EventOf (f : Frame) : Event → Type 0 where
  foreign :
      f.header.ext_type_without_channel_msg ≢ 0
      → EventOf f
          (unknown f.header.ext_type_without_channel_msg f.header.msg_type f.header.payload_length)
  undecodable :
      (x : Error)
      → f.header.ext_type_without_channel_msg ≡ 0
      → f.message ≡ inl x
      → HasType f.header.msg_type
      → EventOf f (malformed f.header.msg_type f.header.payload_length x)
  unlisted :
      (x : Error)
      → f.header.ext_type_without_channel_msg ≡ 0
      → f.message ≡ inl x
      → ¬ (HasType f.header.msg_type)
      → EventOf f
          (unknown f.header.ext_type_without_channel_msg f.header.msg_type f.header.payload_length)
  succeeds :
      (m : AnyMessage) (version flags : ℕ)
      → f.header.ext_type_without_channel_msg ≡ 0
      → f.message ≡ inr m
      → m.body ≡ setup_connection_success version flags
      → EventOf f (setup_success version flags)
  refuses :
      (m : AnyMessage) (flags : ℕ) (code : List ℕ)
      → f.header.ext_type_without_channel_msg ≡ 0
      → f.message ≡ inr m
      → m.body ≡ setup_connection_error flags code
      → EventOf f (setup_error flags code)
  redirects :
      (m : AnyMessage) (host : List ℕ) (port : ℕ)
      → f.header.ext_type_without_channel_msg ≡ 0
      → f.message ≡ inr m
      → m.body ≡ reconnect host port
      → EventOf f (reconnect_to host port)
  carries_other :
      (m : AnyMessage)
      → f.header.ext_type_without_channel_msg ≡ 0
      → f.message ≡ inr m
      → m.body ≡ other_message
      → EventOf f (other f.header.msg_type)

-- The header issues after a frame: one more just where a message was decoded whose channel bit is not the
-- header's.
pub data Noted (f : Frame) (issues : List HeaderIssue) : List HeaderIssue → Type 0 where
  nothing_noted :
      ((m : AnyMessage)
        → f.header.ext_type_without_channel_msg ≡ 0
        → f.message ≡ inr m
        → m.channel_bit ≡ f.header.channel_msg)
      → Noted f issues issues
  mismatch_noted :
      (m : AnyMessage)
      → f.header.ext_type_without_channel_msg ≡ 0
      → f.message ≡ inr m
      → m.channel_bit ≢ f.header.channel_msg
      → Noted f issues (
          issues
          ++ record {
            message_type = f.header.msg_type;
            reason = if f.header.channel_msg then bit_set else bit_missing;
          }
            ∷ [])

-- A setup is decided once: only a pending one moves, to what the first decoded message, of type t, makes
-- of it.
pub data SetupStep (t : ℕ) : SetupState → Event → SetupState → Type 0 where
  established_by :
      (version flags : ℕ)
      → SetupStep t pending (setup_success version flags) (established version flags)
  rejected_by :
      (flags : ℕ) (code : List ℕ)
      → SetupStep t pending (setup_error flags code) (rejected flags code)
  answered_otherwise : (e : Event) → IsOtherwise e → SetupStep t pending e (unexpected t)
  still_pending : (e : Event) → IsUnread e → SetupStep t pending e pending
  not_pending : (s : SetupState) (e : Event) → s ≢ pending → SetupStep t s e s

apply_to-SetupStep :
    (s : SetupState) (m : MessageBody) (t : ℕ)
    → SetupStep t s (event_of m t) (apply_to s (event_of m t) t)
unfolding apply_to answer_state event_of
apply_to-SetupStep pending (setup_connection_success v f) t = established_by v f
apply_to-SetupStep pending (setup_connection_error f c) t = rejected_by f c
apply_to-SetupStep pending (reconnect h p) t = answered_otherwise _ tt
apply_to-SetupStep pending other_message t = answered_otherwise _ tt
apply_to-SetupStep unsent m t = not_pending unsent _ (λ e. cc)
apply_to-SetupStep (established v f) m t = not_pending _ _ (λ e. cc)
apply_to-SetupStep (rejected f c) m t = not_pending _ _ (λ e. cc)
apply_to-SetupStep (unexpected u) m t = not_pending _ _ (λ e. cc)

unread-SetupStep : (t : ℕ) (s : SetupState) (e : Event) → IsUnread e → SetupStep t s e s
unread-SetupStep t pending e h = still_pending e h
unread-SetupStep t unsent e h = not_pending unsent e (λ q. cc)
unread-SetupStep t (established v f) e h = not_pending _ e (λ q. cc)
unread-SetupStep t (rejected f c) e h = not_pending _ e (λ q. cc)
unread-SetupStep t (unexpected u) e h = not_pending _ e (λ q. cc)

event_of-EventOf :
    (f : Frame) (m : AnyMessage) (b : MessageBody)
    → f.header.ext_type_without_channel_msg ≡ 0
    → f.message ≡ inr m
    → m.body ≡ b
    → EventOf f (event_of b f.header.msg_type)
unfolding event_of
event_of-EventOf f m (setup_connection_success v g) z e b = succeeds m v g z e b
event_of-EventOf f m (setup_connection_error g c) z e b = refuses m g c z e b
event_of-EventOf f m (reconnect h p) z e b = redirects m h p z e b
event_of-EventOf f m other_message z e b = carries_other m z e b

known_message_type-HasType : (t : ℕ) → (known_message_type t ≡ true) ↔ HasType t
unfolding known_message_type
known_message_type-HasType t = (λ h. ground arith, λ h. ground arith)

bool_eq-true : (a b : Bool) → bool_eq a b ≡ true → a ≡ b
unfolding bool_eq
bool_eq-true true true h = refl
bool_eq-true false false h = refl
bool_eq-true true false h = cc
bool_eq-true false true h = cc

bool_eq-false : (a b : Bool) → bool_eq a b ≡ false → a ≢ b
unfolding bool_eq
bool_eq-false true true h e = cc
bool_eq-false false false h e = cc
bool_eq-false true false h e = cc
bool_eq-false false true h e = cc

-- What a frame does to a connection whose events were `events`.
pub record Received (f : Frame) (s s' : ConnectionState) (e : Event) (events : List Event)
    : Type 0 where
  pub event : EventOf f e
  pub step : SetupStep f.header.msg_type s.setup e s'.setup
  pub issues : Noted f s.header_issues s'.header_issues
  pub kept : s'.events ≡ events

-- The step of a classified frame: its event is not kept yet.
abbrev Classified : Frame → ConnectionState → ConnectionState × Event → Type 0
Classified f s (s', e) = Received f s s' e s.events

agreed_issues :
    (f : Frame) (m : AnyMessage) (issues : List HeaderIssue)
    → f.message ≡ inr m
    → m.channel_bit ≡ f.header.channel_msg
    → Noted f issues issues
agreed_issues f m issues e h = nothing_noted (λ m' z e'.
    let same : m ≡ m' = cc in
    subst (λ (x : AnyMessage). x.channel_bit ≡ f.header.channel_msg) same h)

observe-Classified :
    (b : Bool) (m : AnyMessage) (f : Frame) (s : ConnectionState)
    → f.header.ext_type_without_channel_msg ≡ 0
    → f.message ≡ inr m
    → bool_eq m.channel_bit f.header.channel_msg ≡ b
    → Classified f s (observe m.body f.header.msg_type (check_channel_bit m f.header s))
unfolding observe check_channel_bit apply
observe-Classified true m f s z g e = simp e (record {
  event = event_of-EventOf f m m.body z g refl;
  step = apply_to-SetupStep s.setup m.body f.header.msg_type;
  issues = agreed_issues f m s.header_issues g (bool_eq-true _ _ e);
  kept = refl;
})
observe-Classified false m f s z g e = simp e (record {
  event = event_of-EventOf f m m.body z g refl;
  step = apply_to-SetupStep s.setup m.body f.header.msg_type;
  issues = mismatch_noted m z g (bool_eq-false _ _ e);
  kept = refl;
})

-- Where no message is read, nothing but the event comes of a frame.
unread-Classified :
    (f : Frame) (s : ConnectionState) (e : Event)
    → EventOf f e
    → IsUnread e
    → ((m : AnyMessage) → f.header.ext_type_without_channel_msg ≡ 0 → ¬ (f.message ≡ inr m))
    → Classified f s (s, e)
unread-Classified f s e of unread nothing = record {
  event = of;
  step = unread-SetupStep f.header.msg_type s.setup e unread;
  issues = nothing_noted (λ m z g. absurd (nothing m z g));
  kept = refl;
}

undecoded-Classified :
    (f : Frame) (s : ConnectionState) (x : Error) (b : Bool)
    → (f.header.ext_type_without_channel_msg == 0) ≡ true
    → f.message ≡ inl x
    → known_message_type f.header.msg_type ≡ b
    → Classified f s (classify f s)
unfolding classify
undecoded-Classified f s x true z e k =
    let zero_ext = (==_iff f.header.ext_type_without_channel_msg 0).0 z in
    simp (z, classify, e, k)
      (unread-Classified f s _
        (undecodable x zero_ext e ((known_message_type-HasType f.header.msg_type).0 k)) tt
        (λ m z' g. cc))
undecoded-Classified f s x false z e k =
    let zero_ext = (==_iff f.header.ext_type_without_channel_msg 0).0 z in
    simp (z, classify, e, k)
      (unread-Classified f s _
        (unlisted x zero_ext e
          (λ h. let yes = (known_message_type-HasType f.header.msg_type).1 h in cc))
        tt (λ m z' g. cc))

decoded-Classified :
    (f : Frame) (s : ConnectionState) (o : Error ⊎ AnyMessage)
    → (f.header.ext_type_without_channel_msg == 0) ≡ true
    → f.message ≡ o
    → Classified f s (classify f s)
unfolding classify
decoded-Classified f s (inr m) z e =
    let zero_ext = (==_iff f.header.ext_type_without_channel_msg 0).0 z in
    simp (z, classify, e)
      (observe-Classified (bool_eq m.channel_bit f.header.channel_msg) m f s zero_ext e refl)
decoded-Classified f s (inl x) z e = undecoded-Classified f s x _ z e refl

classify-Classified : (f : Frame) (s : ConnectionState) → Classified f s (classify f s)
unfolding classify
classify-Classified f s = elim (Bool-cases (f.header.ext_type_without_channel_msg == 0)) [
  | inl z ↦ decoded-Classified f s f.message z refl
  | inr z ↦
      let other_ext : f.header.ext_type_without_channel_msg ≢ 0 = grind arith in
      rw (z, classify) (unread-Classified f s _ (foreign other_ext) tt (λ m e g. other_ext e))
]

-- Receiving a frame gives the event that tells of its content (the decoded message; otherwise that it
-- is malformed, where its type is known, or unknown, also where its extension is), put at the end of
-- those received; a setup that is not pending stays, a pending one is decided by the first decoded
-- message, and a frame without one leaves it pending; a header issue is noted just where a message was
-- decoded whose channel bit is not the header's.
pub dispatch-SetupStep :
    (f : Frame) (s : ConnectionState)
    → Received f s (dispatch f s).0 (dispatch f s).1 (s.events ++ (dispatch f s).1 ∷ [])
unfolding dispatch keep_event
dispatch-SetupStep f s =
    let c = classify-Classified f s in
    record {
      event = c.event;
      step = c.step;
      issues = c.issues;
      kept = ap (λ es. es ++ (classify f s).1 ∷ []) c.kept;
    }
