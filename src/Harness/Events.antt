-- ===== src/Harness/Events.antt =====
-- crates/stratamoto/src/events.rs: the dispatcher of received frames and a connection's state.
pub mod States
use stratamoto.Base.{
  ℕ, Bool, true, false, not, ◌&&◌, ◌||◌, List, [], ◌∷◌, ◌++◌, leb, ◌==◌, if◌then◌else◌, inl, inr,
}
use stratamoto.Harness.Errors.{Error}
use stratamoto.Harness.Frames.{
  Header, MessageBody, setup_connection_success, setup_connection_error, reconnect, other_message,
  AnyMessage, Frame,
}

pub data Event : Type 0 where
  setup_success : ℕ → ℕ → Event
  setup_error : ℕ → List ℕ → Event
  reconnect_to : List ℕ → ℕ → Event
  other : ℕ → Event
  -- the extension type, the message type and the length
  unknown : ℕ → ℕ → ℕ → Event
  -- the message type, the length and the reason
  malformed : ℕ → ℕ → Error → Event

pub data HeaderReason : Type 0 where
  bit_set bit_missing : HeaderReason

pub record HeaderIssue : Type 0 where
  pub message_type : ℕ
  pub reason : HeaderReason

pub data SetupState : Type 0 where
  unsent pending : SetupState
  established : ℕ → ℕ → SetupState
  rejected : ℕ → List ℕ → SetupState
  unexpected : ℕ → SetupState

pub record ConnectionState : Type 0 where
  pub setup : SetupState
  pub events : List Event
  pub header_issues : List HeaderIssue

-- `ConnectionState::default`
abbrev pub new_connection : ConnectionState
new_connection = record { setup = unsent; events = []; header_issues = [] }

unfoldable pub known_message_type : ℕ → Bool
known_message_type t =
    leb t 0x04
    || (leb 0x10 t && leb t 0x25)
    || (leb 0x50 t && leb t 0x60)
    || (leb 0x70 t && leb t 0x76)

unfoldable pub event_of : MessageBody → ℕ → Event
event_of (setup_connection_success version flags) t = setup_success version flags
event_of (setup_connection_error flags code) t = setup_error flags code
event_of (reconnect host port) t = reconnect_to host port
event_of other_message t = other t

unfoldable pub answer_state : Event → ℕ → SetupState
answer_state (setup_success version flags) t = established version flags
answer_state (setup_error flags code) t = rejected flags code
answer_state _ t = unexpected t

apply_to : SetupState → Event → ℕ → SetupState
apply_to pending e t = answer_state e t
apply_to s e t = s

unfoldable pub apply : Event → ℕ → ConnectionState → ConnectionState
unfolding apply_to answer_state
apply e t s = record s { setup = apply_to s.setup e t }

unfoldable pub observe : MessageBody → ℕ → ConnectionState → ConnectionState × Event
unfolding event_of apply
observe m t s = let e = event_of m t in (apply e t s, e)

unfoldable pub bool_eq : Bool → Bool → Bool
bool_eq true b = b
bool_eq false b = not b

-- the comparison of the header's channel bit with the message's
unfoldable pub check_channel_bit : AnyMessage → Header → ConnectionState → ConnectionState
check_channel_bit m h s = if bool_eq m.channel_bit h.channel_msg then s else record s {
  header_issues =
      s.header_issues
      ++ record {
        message_type = h.msg_type;
        reason = if h.channel_msg then bit_set else bit_missing;
      }
        ∷ [];
}

-- the event of a frame, and the state before the event is kept
unfoldable pub classify : Frame → ConnectionState → ConnectionState × Event
unfolding check_channel_bit observe known_message_type
classify f s =
    let h = f.header in
    let foreign = unknown h.ext_type_without_channel_msg h.msg_type h.payload_length in
    elim (h.ext_type_without_channel_msg == 0) [
      | false ↦ (s, foreign)
      | true ↦ elim f.message [
        | inr m ↦ observe m.body h.msg_type (check_channel_bit m h s)
        | inl e ↦ (
          s,
          (if known_message_type h.msg_type
              then malformed h.msg_type h.payload_length e
              else foreign),
        )
      ]
    ]

keep_event : ConnectionState × Event → ConnectionState × Event
keep_event (s, e) = (record s { events = s.events ++ e ∷ [] }, e)

unfoldable pub dispatch : Frame → ConnectionState → ConnectionState × Event
unfolding keep_event classify
dispatch f s = keep_event (classify f s)
