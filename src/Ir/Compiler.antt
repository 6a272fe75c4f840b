-- ===== src/Ir/Compiler.antt =====
-- crates/stratamoto-ir/src/compiler.rs: the compiler from programs to actions.
-- `inputs[k]` out of range is the result `panic`. The compiler is consumed by `compile`, so on an
-- error its state is gone.
pub mod Types
pub mod Blocks
pub mod Steps
pub mod Turns
pub mod Jumps
pub mod Validated
use stratamoto.Base.{
  ℕ, zero, suc, ◌+◌, Bool, true, false, not, List, [], ◌∷◌, ◌++◌, length, get_elem?, set, replicate,
  Option, none, some, inl, inr, contains, set_insert, map_insert, if◌then◌else◌, Result, ok, err,
  panic, ◌>>=◌, ◌>>◌,
}
use stratamoto.Ir.Variable.{Protocol, id}
use stratamoto.Ir.Operation.{
  Operation, load_role, load_connection, load_version, load_flags, load_port, load_str, load_bytes,
  load_duration, begin_build_setup_connection, set_versions, set_flags, set_endpoint,
  set_device_info, end_build_setup_connection, send_setup_connection, begin_on_setup_success,
  end_on_setup_success, send_raw_frame,
}
use stratamoto.Ir.Instruction.{Instruction, ProgramContext, Program}
use stratamoto.Ir.Spec.{
  SetupConnectionSpec, default_setup, ClientViolation, setup_not_first, raw_frame_before, Action,
  send, await_setup_response, enter_on_setup_success, exit_block, CompiledMetadata, CompiledProgram,
  CompilerError, missing_value, unexpected_value, string_too_long, unbalanced_block, encoding,
  max_action_id, SetupConnection, Wire,
}

pub data Value : Type 0 where
  nop : Value
  role connection : ℕ → Value
  -- the session and the connection
  setup_attempt : ℕ → ℕ → Value
  session : Value
  version flags port : ℕ → Value
  str bytes : List ℕ → Value
  duration : ℕ → Value
  setup_connection : SetupConnectionSpec → Value

pub record Compiler : Type 0 where
  pub values : List Value
  pub actions : List Action
  pub metadata : CompiledMetadata
  pub connections : ℕ
  pub sessions : ℕ
  pub sent : List ℕ
  pub raw_framed : List ℕ
  -- innermost first
  pub blocks : List ℕ

abbrev pub Compiled : Type 0 → Type 0
Compiled = Result CompilerError

-- `Compiler::default`
abbrev pub new_compiler : Compiler
new_compiler = record {
  values = [];
  actions = [];
  metadata = record {
    action_instructions = [];
    session_variables = [];
    connection_variables = [];
    session_setups = [];
    violations = [];
  };
  connections = 0;
  sessions = 0;
  sent = [];
  raw_framed = [];
  blocks = [];
}

-- The action's index is the number of actions before it.
unfoldable pub push_action : ℕ → Action → Compiler → Compiler
push_action instruction action c =
    let m = c.metadata in
    record c {
      metadata = record m { action_instructions = m.action_instructions ++ instruction ∷ [] };
      actions = c.actions ++ action ∷ [];
    }

unfoldable pub push_value : Value → Compiler → Compiler
push_value v c = record c { values = c.values ++ v ∷ [] }

unfoldable pub note : ℕ → List ClientViolation → Compiler → Compiler
note action [] c = c
note action (v ∷ vs) c =
    let m = c.metadata in
    record c { metadata = record m { violations = map_insert action (v ∷ vs) m.violations } }

unfoldable pub value : Compiler → ℕ → Compiled Value
value c i = elim (get_elem? c.values i) [ none ↦ err (missing_value i) | some v ↦ ok v ]

-- `inputs[k]`
unfoldable pub input : List ℕ → ℕ → Compiled ℕ
input inputs k = elim (get_elem? inputs k) [ none ↦ panic | some i ↦ ok i ]

unfoldable pub as_role : ℕ → Value → Compiled ℕ
as_role i (role v) = ok v
as_role i _ = err (unexpected_value i)

unfoldable pub as_connection : ℕ → Value → Compiled ℕ
as_connection i (connection v) = ok v
as_connection i _ = err (unexpected_value i)

unfoldable pub as_version : ℕ → Value → Compiled ℕ
as_version i (version v) = ok v
as_version i _ = err (unexpected_value i)

unfoldable pub as_flags : ℕ → Value → Compiled ℕ
as_flags i (flags v) = ok v
as_flags i _ = err (unexpected_value i)

unfoldable pub as_port : ℕ → Value → Compiled ℕ
as_port i (port v) = ok v
as_port i _ = err (unexpected_value i)

unfoldable pub as_string : ℕ → Value → Compiled (List ℕ)
as_string i (str v) = ok v
as_string i _ = err (unexpected_value i)

unfoldable pub as_bytes : ℕ → Value → Compiled (List ℕ)
as_bytes i (bytes v) = ok v
as_bytes i _ = err (unexpected_value i)

unfoldable pub as_duration : ℕ → Value → Compiled ℕ
as_duration i (duration v) = ok v
as_duration i _ = err (unexpected_value i)

unfoldable pub as_attempt : ℕ → Value → Compiled (ℕ × ℕ)
as_attempt i (setup_attempt s c) = ok (s, c)
as_attempt i _ = err (unexpected_value i)

unfoldable pub as_setup : ℕ → Value → Compiled SetupConnectionSpec
as_setup i (setup_connection s) = ok s
as_setup i _ = err (unexpected_value i)

-- `self.role(inputs[k])?` and its like: the k-th input read by one of the above
unfoldable pub read : {A : Type 0} → (ℕ → Value → Compiled A) → Compiler → List ℕ → ℕ → Compiled A
read reads c inputs k = do i ← input inputs k; v ← value c i; reads i v

-- `let spec = self.setup_mut(inputs[0])?` and the assignments through it
unfoldable pub edit_setup :
    (SetupConnectionSpec → SetupConnectionSpec) → Compiler → List ℕ → Compiled Compiler
edit_setup edit c inputs = do
  i ← input inputs 0
  v ← value c i
  spec ← as_setup i v
  ok (record c { values = set c.values i (setup_connection (edit spec)) })

unfoldable pub str0_255 : Wire → ℕ → List ℕ → Compiled (List ℕ)
str0_255 w variable s = elim (w.to_str0_255 s) [
  | none ↦ err (string_too_long variable)
  | some t ↦ ok t
]

unfoldable pub encode : Wire → SetupConnection → Compiled (List ℕ)
encode w message = elim (w.to_writer message) [
  | inl e ↦ err (encoding e)
  | inr payload ↦ ok payload
]

-- the `expect` on the wire form of a protocol
unfoldable pub wire_protocol : Wire → Protocol → Compiled ℕ
wire_protocol w p = elim (w.protocol_of_id (id p)) [ none ↦ panic | some k ↦ ok k ]

unfoldable pub encode_setup_connection : Wire → SetupConnectionSpec → ℕ → Compiled (List ℕ)
encode_setup_connection w spec variable = do
  protocol ← wire_protocol w spec.protocol
  endpoint_host ← str0_255 w variable spec.endpoint_host
  vendor ← str0_255 w variable spec.vendor
  hardware_version ← str0_255 w variable spec.hardware_version
  firmware ← str0_255 w variable spec.firmware
  device_id ← str0_255 w variable spec.device_id
  encode w (record {
    protocol = protocol;
    min_version = spec.min_version;
    max_version = spec.max_version;
    flags = spec.flags;
    endpoint_host = endpoint_host;
    endpoint_port = spec.endpoint_port;
    vendor = vendor;
    hardware_version = hardware_version;
    firmware = firmware;
    device_id = device_id;
  })

-- the arm of `Operation::SendSetupConnection`
unfoldable pub send_setup : Wire → ℕ → List ℕ → Protocol → Compiler → Compiled Compiler
send_setup w index inputs protocol c = do
  link ← read as_connection c inputs 0
  let first_on_connection = not (contains c.sent link)
  let c₁ : Compiler = record c { sent = set_insert link c.sent }
  spec ← read as_setup c₁ inputs 1
  variable ← input inputs 1
  payload ← encode_setup_connection w spec variable
  let session_id = c₁.sessions
  let m = c₁.metadata
  let c₂ : Compiler = record c₁ {
    sessions = session_id + 1;
    metadata = record m {
      session_variables = map_insert session_id (length c₁.values) m.session_variables;
      session_setups = map_insert session_id spec m.session_setups;
    };
  }
  let c₃ = push_value (setup_attempt session_id link) c₂
  let c₄ = push_action index (send link 0 w.setup_connection_type false payload) c₃
  let action = length c₄.actions
  let c₅ = push_action index (await_setup_response link session_id protocol first_on_connection) c₄
  ok (
      note action
        ((if first_on_connection then [] else setup_not_first ∷ [])
          ++ (if contains c₅.raw_framed link then raw_frame_before ∷ [] else []))
        c₅)

-- the arm of `Operation::Connect`
unfoldable pub compile_connect : ℕ → List ℕ → Compiler → Compiled Compiler
compile_connect index inputs c = do
  role_id ← read as_role c inputs 0
  let link = c.connections
  let m = c.metadata
  let c₁ : Compiler = record c {
    connections = link + 1;
    metadata = record m {
      connection_variables = map_insert link (length c.values) m.connection_variables;
    };
  }
  ok (push_action index (Action.connect link role_id) (push_value (connection link) c₁))

-- the arm of `Operation::BeginOnSetupSuccess`; the end of the block is patched in by its exit
unfoldable pub begin_success : ℕ → List ℕ → Compiler → Compiled Compiler
begin_success index inputs c = do
  attempt ← read as_attempt c inputs 0
  let enter = length c.actions
  let c₁ = push_action index (enter_on_setup_success attempt.0 max_action_id) c
  ok (push_value session (record c₁ { blocks = enter ∷ c₁.blocks }))

-- `match &mut self.actions[enter]`
unfoldable pub patch_enter : ℕ → ℕ → Compiler → Compiled Compiler
patch_enter enter exit c = elim (get_elem? c.actions enter) [
  | none ↦ panic
  | some (enter_on_setup_success s _) ↦
      ok (record c { actions = set c.actions enter (enter_on_setup_success s exit) })
  | some _ ↦ err unbalanced_block
]

pub end_success_of : List ℕ → ℕ → Compiler → Compiled Compiler
end_success_of [] index c = err unbalanced_block
end_success_of (enter ∷ blocks) index c =
    let c₁ : Compiler = record c { blocks = blocks } in
    patch_enter enter (length c₁.actions) (push_action index exit_block c₁)

-- the arm of `Operation::EndOnSetupSuccess`
unfoldable pub end_success : ℕ → Compiler → Compiled Compiler
unfolding end_success_of
end_success index c = end_success_of c.blocks index c

-- the arm of `Operation::SendRawFrame`
unfoldable pub send_raw : ℕ → List ℕ → ℕ → ℕ → Compiler → Compiled Compiler
send_raw index inputs message_type extension_type c = do
  link ← read as_connection c inputs 0
  payload ← read as_bytes c inputs 1
  let c₁ : Compiler = record c {
    sent = set_insert link c.sent;
    raw_framed = set_insert link c.raw_framed;
  }
  ok (push_action index (send link extension_type message_type false payload) c₁)

-- the arms that edit the message under construction
unfoldable pub compile_set_versions : List ℕ → Compiler → Compiled Compiler
compile_set_versions inputs c = do
  min_version ← read as_version c inputs 1
  max_version ← read as_version c inputs 2
  edit_setup (λ s. record s { min_version = min_version; max_version = max_version }) c inputs

unfoldable pub compile_set_flags : List ℕ → Compiler → Compiled Compiler
compile_set_flags inputs c = do
  setup_flags ← read as_flags c inputs 1
  edit_setup (λ s. record s { flags = setup_flags }) c inputs

unfoldable pub compile_set_endpoint : List ℕ → Compiler → Compiled Compiler
compile_set_endpoint inputs c = do
  host ← read as_string c inputs 1
  host_port ← read as_port c inputs 2
  edit_setup (λ s. record s { endpoint_host = host; endpoint_port = host_port }) c inputs

unfoldable pub compile_set_device_info : List ℕ → Compiler → Compiled Compiler
compile_set_device_info inputs c = do
  vendor ← read as_string c inputs 1
  hardware_version ← read as_string c inputs 2
  firmware ← read as_string c inputs 3
  device_id ← read as_string c inputs 4
  edit_setup
      (λ s. record s {
        vendor = vendor;
        hardware_version = hardware_version;
        firmware = firmware;
        device_id = device_id;
      })
      c inputs

-- the arm of `Operation::EndBuildSetupConnection`
unfoldable pub end_build : List ℕ → Protocol → Compiler → Compiled Compiler
end_build inputs protocol c = do
  spec ← read as_setup c inputs 0
  ok (push_value (setup_connection (record spec { protocol = protocol })) c)

-- the arm of `Operation::AdvanceTime`
unfoldable pub compile_advance_time : ℕ → List ℕ → Compiler → Compiled Compiler
compile_advance_time index inputs c = do
  time ← read as_duration c inputs 0
  ok (push_action index (Action.advance_time time) c)

-- the `match` of `compile_instruction`
unfoldable pub compile_operation : Wire → ℕ → List ℕ → Operation → Compiler → Compiled Compiler
compile_operation w index inputs (Operation.nop outputs inner_outputs) c =
    ok (record c { values = c.values ++ replicate (outputs + inner_outputs) nop })
compile_operation w index inputs (load_role i) c = ok (push_value (role i) c)
compile_operation w index inputs (load_connection i) c = ok (push_value (connection i) c)
compile_operation w index inputs (load_version v) c = ok (push_value (version v) c)
compile_operation w index inputs (load_flags v) c = ok (push_value (flags v) c)
compile_operation w index inputs (load_port v) c = ok (push_value (port v) c)
compile_operation w index inputs (load_str v) c = ok (push_value (str v) c)
compile_operation w index inputs (load_bytes v) c = ok (push_value (bytes v) c)
compile_operation w index inputs (load_duration v) c = ok (push_value (duration v) c)
compile_operation w index inputs Operation.connect c = compile_connect index inputs c
compile_operation w index inputs begin_build_setup_connection c =
    ok (push_value (setup_connection default_setup) c)
compile_operation w index inputs set_versions c = compile_set_versions inputs c
compile_operation w index inputs set_flags c = compile_set_flags inputs c
compile_operation w index inputs set_endpoint c = compile_set_endpoint inputs c
compile_operation w index inputs set_device_info c = compile_set_device_info inputs c
compile_operation w index inputs (end_build_setup_connection p) c = end_build inputs p c
compile_operation w index inputs (send_setup_connection p) c = send_setup w index inputs p c
compile_operation w index inputs (begin_on_setup_success _) c = begin_success index inputs c
compile_operation w index inputs end_on_setup_success c = end_success index c
compile_operation w index inputs (send_raw_frame message_type extension_type) c =
    send_raw index inputs message_type extension_type c
compile_operation w index inputs Operation.advance_time c = compile_advance_time index inputs c
compile_operation w index inputs Operation.probe c = ok (push_action index Action.probe c)

unfoldable pub compile_instruction : Wire → ℕ → Instruction → Compiler → Compiled Compiler
compile_instruction w index i c = compile_operation w index i.inputs i.operation c

-- the loop of `compile`
unfoldable pub compile_from : Wire → ℕ → List Instruction → Compiler → Compiled Compiler
compile_from w index [] c = ok c
compile_from w index (i ∷ is) c = compile_instruction w index i c >>= compile_from w (index + 1) is

-- `extend(0..n)`; the capacity that the set asks for, which fails for a huge n, is left out
unfoldable pub extend_below : ℕ → List ℕ → List ℕ
extend_below zero s = s
extend_below (suc n) s = set_insert n (extend_below n s)

unfoldable pub start : ProgramContext → Compiler
start context = record new_compiler {
  connections = context.num_connections;
  sent = extend_below context.num_connections [];
}

unfoldable pub compile : Wire → Program → Compiled CompiledProgram
compile w p = do
  c ← compile_from w 0 p.instructions (start p.context)
  ok (record { context = p.context; actions = c.actions; metadata = c.metadata })
