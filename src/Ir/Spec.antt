-- ===== src/Ir/Spec.antt =====
-- The data of crates/stratamoto-ir/src/compiler.rs: messages, actions and compiled programs, and the
-- interface of the wire library that encodes a message.
use stratamoto.Base.{
  ℕ, ◌^◌, ◌-◌, ◌≡◌, Bool, Option, some, none, List, [], ◌∷◌, ◌⊎◌, length, leb, if◌then◌else◌,
}
use stratamoto.Ir.Variable.{Protocol, mining, id}
use stratamoto.Ir.Instruction.{ProgramContext}

-- Texts are their bytes.
pub record SetupConnectionSpec : Type 0 where
  pub protocol : Protocol
  pub min_version : ℕ
  pub max_version : ℕ
  pub flags : ℕ
  pub endpoint_host : List ℕ
  pub endpoint_port : ℕ
  pub vendor : List ℕ
  pub hardware_version : List ℕ
  pub firmware : List ℕ
  pub device_id : List ℕ

-- `Default` for `SetupConnectionSpec`: the host "0.0.0.0" and the vendor "stratamoto"
abbrev pub default_setup : SetupConnectionSpec
default_setup = record {
  protocol = mining;
  min_version = 2;
  max_version = 2;
  flags = 0;
  endpoint_host = b'0' ∷ b'.' ∷ b'0' ∷ b'.' ∷ b'0' ∷ b'.' ∷ b'0' ∷ [];
  endpoint_port = 0;
  vendor = b's' ∷ b't' ∷ b'r' ∷ b'a' ∷ b't' ∷ b'a' ∷ b'm' ∷ b'o' ∷ b't' ∷ b'o' ∷ [];
  hardware_version = [];
  firmware = [];
  device_id = [];
}

pub data ClientViolation : Type 0 where
  setup_not_first raw_frame_before : ClientViolation

pub data Action : Type 0 where
  -- the connection and the role
  connect : ℕ → ℕ → Action
  -- the connection, the extension type, the message type, the channel bit and the payload
  send : ℕ → ℕ → ℕ → Bool → List ℕ → Action
  -- the connection, the session, its protocol, and whether the setup is first on its connection
  await_setup_response : ℕ → ℕ → Protocol → Bool → Action
  -- the session and the exit of the block
  enter_on_setup_success : ℕ → ℕ → Action
  exit_block : Action
  advance_time : ℕ → Action
  probe : Action

pub record CompiledMetadata : Type 0 where
  pub action_instructions : List ℕ
  pub session_variables : List (ℕ × ℕ)
  pub connection_variables : List (ℕ × ℕ)
  pub session_setups : List (ℕ × SetupConnectionSpec)
  pub violations : List (ℕ × List ClientViolation)

pub record CompiledProgram : Type 0 where
  pub context : ProgramContext
  pub actions : List Action
  pub metadata : CompiledMetadata

pub data CompilerError : Type 0 where
  missing_value unexpected_value string_too_long : ℕ → CompilerError
  unbalanced_block : CompilerError
  encoding : List ℕ → CompilerError

-- `usize::MAX`
abbrev pub max_action_id : ℕ
max_action_id = 2 ^ 64 - 1

-- `SetupConnection` of the wire library, whose fields the compiler fills in; its texts have been
-- taken for `Str0255`.
pub record SetupConnection : Type 0 where
  pub protocol : ℕ
  pub min_version : ℕ
  pub max_version : ℕ
  pub flags : ℕ
  pub endpoint_host : List ℕ
  pub endpoint_port : ℕ
  pub vendor : List ℕ
  pub hardware_version : List ℕ
  pub firmware : List ℕ
  pub device_id : List ℕ

-- What the compiler calls of `stratum_core`, which is not part of the repository.
pub record Wire : Type 0 where
  -- the wire protocol that an identifier names
  pub protocol_of_id : ℕ → Option ℕ
  -- a text as a `Str0255`
  pub to_str0_255 : List ℕ → Option (List ℕ)
  -- `to_writer` into a buffer of the message's size: the error's text or the payload
  pub to_writer : SetupConnection → List ℕ ⊎ List ℕ
  -- `MESSAGE_TYPE_SETUP_CONNECTION`
  pub setup_connection_type : ℕ

-- What the wire library documents: every subprotocol has a wire form, and a `Str0255` is a text of
-- at most 255 bytes.
pub record WireLaws (w : Wire) : Type 0 where
  pub knows_protocols : (p : Protocol) → (k : ℕ) × (w.protocol_of_id (id p) ≡ some k)
  pub bounds_texts : (s : List ℕ) → w.to_str0_255 s ≡ (if leb (length s) 255 then some s else none)
