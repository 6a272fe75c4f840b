-- ===== src/Ir/Generators/Setup.antt =====
-- crates/stratamoto-ir/src/generators/setup_connection.rs
pub mod Appends
use stratamoto.Base.{
  ℕ, zero, suc, ◌+◌, ◌-◌, ◌*◌, ◌/◌, ◌%◌, ◌^◌, Bool, true, false, List, [], ◌∷◌, replicate, Option,
  none, some, if◌then◌else◌, ◌==◌, leb, panic,
}
use stratamoto.Ir.Variable.{Variable, Protocol, mining, job_declaration, template_distribution}
use stratamoto.Ir.Operation.{
  Operation, load_version, load_flags, load_port, load_str, load_bytes,
  begin_build_setup_connection, set_versions, set_flags, set_endpoint, set_device_info,
  end_build_setup_connection, send_setup_connection, send_raw_frame,
}
use stratamoto.Ir.Builder.{IndexedVariable}
use stratamoto.Ir.Generators.{
  Rng, Gen, ◌>>=◌, ◌>>◌, return, draw, append_one, append_unit, get_random_variable, or_connect,
}

-- Words of the given number of bits.
unfoldable pub bit_and : ℕ → ℕ → ℕ → ℕ
bit_and zero a b = 0
bit_and (suc w) a b = (if leb (a % 2) (b % 2) then a % 2 else b % 2) + 2 * bit_and w (a / 2) (b / 2)

unfoldable pub bit_or : ℕ → ℕ → ℕ → ℕ
bit_or zero a b = 0
bit_or (suc w) a b = (if leb (a % 2) (b % 2) then b % 2 else a % 2) + 2 * bit_or w (a / 2) (b / 2)

-- `isolate_lowest_one`
unfoldable pub lowest_one : ℕ → ℕ → ℕ
lowest_one zero a = 0
lowest_one (suc w) a = if a % 2 == 1 then 1 else 2 * lowest_one w (a / 2)

abbrev pub protocols : List Protocol
protocols = mining ∷ job_declaration ∷ template_distribution ∷ []

abbrev pub current_version : ℕ
current_version = 2

unfoldable pub defined_flags : Protocol → ℕ
defined_flags mining = 7
defined_flags job_declaration = 1
defined_flags template_distribution = 0

pub data ConnectionChoice : Type 0 where
  fresh reuse any : ConnectionChoice

pub data SetupViolation : Type 0 where
  empty_version_range unknown_version undefined_flags after_raw_frame second_setup : SetupViolation

pub record SetupConnectionGenerator : Type 0 where
  pub role : ℕ
  pub protocol : Option Protocol
  pub connection : ConnectionChoice

pub record AdversarialSetupGenerator : Type 0 where
  pub role : ℕ
  pub protocol : Option Protocol
  pub violation : SetupViolation

module _ {S : Type 0} (R : Rng S) where
  unfoldable pub reused_if : Bool → Gen S (Option IndexedVariable)
  reused_if true = get_random_variable R Variable.connection
  reused_if false = return none

  unfoldable pub reused : ConnectionChoice → Gen S (Option IndexedVariable)
  unfolding reused_if
  reused fresh = return none
  reused reuse = get_random_variable R Variable.connection
  reused any = draw R.random_bool >>= reused_if

  unfoldable pub connection : ℕ → ConnectionChoice → Gen S IndexedVariable
  unfolding reused
  connection role choice = reused choice >>= or_connect R role

  -- the `expect` on a choice from a list
  unfoldable pub expected : {A : Type 0} → Option A → Gen S A
  expected none w = panic
  expected (some a) w = return a w

  unfoldable pub chosen_protocol : Option Protocol → Gen S Protocol
  unfolding expected
  chosen_protocol (some p) = return p
  chosen_protocol none = draw (R.choose protocols) >>= expected

  unfoldable pub endpoint_if : IndexedVariable → Bool → Gen S (Unit {0})
  endpoint_if setup false = return tt
  endpoint_if setup true = do
    host ← append_one (load_str (48 ∷ 46 ∷ 48 ∷ 46 ∷ 48 ∷ 46 ∷ 48 ∷ [])) []
    port ← append_one (load_port 0) []
    append_unit set_endpoint (setup ∷ host ∷ port ∷ [])

  -- the vendor is `stratamoto`
  unfoldable pub device_info_if : IndexedVariable → Bool → Gen S (Unit {0})
  device_info_if setup false = return tt
  device_info_if setup true = do
    vendor ← append_one (load_str (115 ∷ 116 ∷ 114 ∷ 97 ∷ 116 ∷ 97 ∷ 109 ∷ 111 ∷ 116 ∷ 111 ∷ [])) []
    hardware ← append_one (load_str []) []
    firmware ← append_one (load_str []) []
    device ← append_one (load_str []) []
    append_unit set_device_info (setup ∷ vendor ∷ hardware ∷ firmware ∷ device ∷ [])

  unfoldable pub setup : IndexedVariable → Protocol → ℕ → ℕ → ℕ → Gen S IndexedVariable
  unfolding endpoint_if device_info_if
  setup link protocol min_version max_version flags = do
    min ← append_one (load_version min_version) []
    max ← append_one (load_version max_version) []
    flags_var ← append_one (load_flags flags) []
    message ← append_one begin_build_setup_connection []
    append_unit set_versions (message ∷ min ∷ max ∷ [])
    append_unit set_flags (message ∷ flags_var ∷ [])
    with_endpoint ← draw R.random_bool
    endpoint_if message with_endpoint
    with_device ← draw R.random_bool
    device_info_if message with_device
    built ← append_one (end_build_setup_connection protocol) (message ∷ [])
    append_one (send_setup_connection protocol) (link ∷ built ∷ [])

  -- `SetupConnectionGenerator::generate`
  unfoldable pub generate_setup : SetupConnectionGenerator → Gen S (Unit {0})
  unfolding setup connection chosen_protocol
  generate_setup g = do
    protocol ← chosen_protocol g.protocol
    link ← connection g.role g.connection
    word ← draw (R.random 32)
    attempt ←
        setup link protocol current_version current_version
          (bit_and 32 word (defined_flags protocol))
    return tt

  -- the flags of `SetupViolation::UndefinedFlags`
  unfoldable pub with_undefined : Protocol → ℕ → ℕ → ℕ
  with_undefined protocol flags word =
      let undefined = 2 ^ 32 - 1 - defined_flags protocol in
      let drawn = bit_or 32 flags (bit_and 32 word undefined) in
      if bit_and 32 drawn undefined == 0 then bit_or 32 drawn (lowest_one 32 undefined) else drawn

  -- the arms of `AdversarialSetupGenerator::generate`
  unfoldable pub violate : SetupViolation → ℕ → Protocol → ℕ → Gen S (Unit {0})
  unfolding setup connection with_undefined expected
  violate empty_version_range role protocol flags = do
    link ← connection role fresh
    attempt ← setup link protocol (current_version + 1) current_version flags
    return tt
  violate unknown_version role protocol flags = do
    link ← connection role fresh
    choice ← draw (R.choose (0 ∷ 1 ∷ 3 ∷ 65535 ∷ []))
    version ← expected choice
    attempt ← setup link protocol version version flags
    return tt
  violate undefined_flags role protocol flags = do
    link ← connection role fresh
    word ← draw (R.random 32)
    attempt ←
        setup link protocol current_version current_version (with_undefined protocol flags word)
    return tt
  violate after_raw_frame role protocol flags = do
    link ← connection role fresh
    bytes ← append_one (load_bytes (replicate 6 0)) []
    message_type ← draw (R.random 8)
    append_unit (send_raw_frame message_type 0) (link ∷ bytes ∷ [])
    attempt ← setup link protocol current_version current_version flags
    return tt
  violate second_setup role protocol flags = do
    link ← connection role fresh
    attempt ← setup link protocol current_version current_version flags
    again ← setup link protocol current_version current_version flags
    return tt

  -- `AdversarialSetupGenerator::generate`
  unfoldable pub generate_adversarial : AdversarialSetupGenerator → Gen S (Unit {0})
  unfolding violate chosen_protocol
  generate_adversarial g = do
    protocol ← chosen_protocol g.protocol
    word ← draw (R.random 32)
    violate g.violation g.role protocol (bit_and 32 word (defined_flags protocol))
