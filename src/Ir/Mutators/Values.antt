-- ===== src/Ir/Mutators/Values.antt =====
-- crates/stratamoto-ir/src/mutators/operation.rs: the mutator of the data that operations carry.
-- A loop that draws until the value has changed runs on fuel: `none` is that it ran out,
-- or a panic of `choose` on no values or of an index. Words are
-- numbers below 2 to the width, a text is the list of its bytes, a duration is in nanoseconds.
pub mod Other
pub mod Changed
use stratamoto.Base.{
  ℕ, zero, suc, ◌+◌, ◌-◌, ◌*◌, ◌/◌, ◌%◌, ◌^◌, Bool, true, false, ◌&&◌, List, [], ◌∷◌, ◌++◌, length,
  get_elem?, set, replicate, take, Option, none, some, if◌then◌else◌, ◌==◌, leb, Result, ok, err,
  panic,
}
use stratamoto.Ir.Operation.{
  Operation, load_role, load_connection, load_version, load_flags, load_port, load_str, load_bytes,
  load_duration, send_raw_frame,
}
use stratamoto.Ir.Instruction.{Instruction, ProgramContext, Program}
use stratamoto.Ir.Generators.{Rng}
use stratamoto.Ir.Renumber.{count_from}
use stratamoto.Ir.Mutators.{MutatorError, no_mutations_available}

abbrev pub versions : List ℕ
versions = 0 ∷ 1 ∷ 2 ∷ 3 ∷ 65534 ∷ 65535 ∷ []

abbrev pub flag_words : List ℕ
flag_words = 0 ∷ 1 ∷ 2 ∷ 4 ∷ 7 ∷ 8 ∷ 0x80000000 ∷ 0xffffffff ∷ []

abbrev pub ports : List ℕ
ports = 0 ∷ 1 ∷ 1023 ∷ 1024 ∷ 65534 ∷ 65535 ∷ []

abbrev pub message_types : List ℕ
message_types = 0 ∷ 1 ∷ 2 ∷ 3 ∷ 4 ∷ 0x10 ∷ 0x7f ∷ 0xff ∷ []

abbrev pub extension_types : List ℕ
extension_types = 0 ∷ 1 ∷ 0x7fff ∷ 0x8000 ∷ 65535 ∷ []

abbrev pub durations : List ℕ
durations = 0 ∷ 1_000_000 ∷ 1_000_000_000 ∷ 10_000_000_000 ∷ 60_000_000_000 ∷ 3_600_000_000_000 ∷ []

-- `value ^ (1 << at)`
unfoldable pub flip_bit : ℕ → ℕ → ℕ
flip_bit at value = if (value / 2 ^ at) % 2 == 1 then value - 2 ^ at else value + 2 ^ at

unfoldable pub list_eq : List ℕ → List ℕ → Bool
list_eq [] [] = true
list_eq (x ∷ xs) (y ∷ ys) = (x == y) && list_eq xs ys
list_eq _ _ = false

-- `candidate.pop()`
unfoldable pub pop : List ℕ → List ℕ
pop bytes = take (length bytes - 1) bytes

module _ {S : Type 0} (R : Rng S) where
  unfoldable pub other_index : ℕ → ℕ → S → Option ℕ × S
  other_index current count s =
      if count == 0
      then (none, s)
      else if leb count current
      then (let (pick, s') = R.random_range 0 count s in (some pick, s'))
      else if count == 1
      then (none, s)
      else (let (pick, s') = R.random_range 0 (count - 1) s in
          (some (if leb current pick then pick + 1 else pick), s'))

  -- one round of `mutate_u8`, `mutate_u16` and `mutate_u32`
  unfoldable pub word_candidate : ℕ → List ℕ → ℕ → S → Option ℕ × S
  word_candidate bits edges value s =
      let (kind, s₁) = R.random_range 0 3 s in
      if kind == 0
      then R.choose edges s₁
      else if kind == 1
      then (let (at, s₂) = R.random_range 0 bits s₁ in (some (flip_bit at value), s₂))
      else (let (word, s₂) = R.random bits s₁ in (some word, s₂))

  unfoldable pub string_candidate : List ℕ → S → Option (List ℕ) × S
  string_candidate value s =
      let (kind, s₁) = R.random_range 0 4 s in
      if kind == 0
      then (some [], s₁)
      else if kind == 1
      then (some (replicate 255 97), s₁)
      else if kind == 2
      then (some (replicate 256 97), s₁)
      else (let (letter, s₂) = R.random_range 97 123 s₁ in (some (value ++ letter ∷ []), s₂))

  unfoldable pub flip_byte : List ℕ → S → Option (List ℕ) × S
  flip_byte value s =
      let (at, s₁) = R.random_range 0 (length value) s in
      let (bit, s₂) = R.random_range 0 8 s₁ in
      (
        elim (get_elem? value at) [
          | none ↦ none
          | some byte ↦ some (set value at (flip_bit bit byte))
        ],
        s₂,
      )

  unfoldable pub bytes_candidate : List ℕ → S → Option (List ℕ) × S
  unfolding flip_byte
  bytes_candidate value s =
      let (kind, s₁) = R.random_range 0 3 s in
      if kind == 0
      then (if length value == 0 then (some (pop value), s₁) else flip_byte value s₁)
      else if kind == 1
      then (let (byte, s₂) = R.random 8 s₁ in (some (value ++ byte ∷ []), s₂))
      else (some (pop value), s₁)

  unfoldable pub duration_candidate : ℕ → S → Option ℕ × S
  duration_candidate value s =
      let (known, s₁) = R.random_bool s in
      if known
      then R.choose durations s₁
      else (let (time, s₂) = R.random_range 0 60000 s₁ in (some (time * 1_000_000), s₂))

  -- `loop { .. if candidate != value { return candidate; } }`
  unfoldable pub until_changed :
      {A : Type 0} → ℕ → (A → A → Bool) → (A → S → Option A × S) → A → S → Option A × S
  until_changed zero same candidate value s = (none, s)
  until_changed (suc fuel) same candidate value s =
      let (found, s') = candidate value s in
      let rest = until_changed fuel same candidate value s' in
      elim found [ none ↦ (none, s') | some new ↦ if same new value then rest else (some new, s') ]

  unfoldable pub mutate_word : ℕ → ℕ → List ℕ → ℕ → S → Option ℕ × S
  unfolding until_changed word_candidate
  mutate_word fuel bits edges = until_changed fuel ◌==◌ (word_candidate bits edges)

  -- a rewritten value put back into its operation
  abbrev pub rewrite : {A : Type 0} → (A → Operation) → Option A × S → Option Operation × S
  rewrite op (none, s) = (none, s)
  rewrite op (some a, s) = (some (op a), s)

  unfoldable pub mutate_raw_frame : ℕ → ℕ → ℕ → Bool → S → Option Operation × S
  unfolding mutate_word
  mutate_raw_frame fuel message_type extension_type true s =
      rewrite (λ v. send_raw_frame v extension_type)
        (mutate_word fuel 8 message_types message_type s)
  mutate_raw_frame fuel message_type extension_type false s =
      rewrite (λ v. send_raw_frame message_type v)
        (mutate_word fuel 16 extension_types extension_type s)

  unfoldable pub mutate_operation : ℕ → Operation → ProgramContext → S → Option Operation × S
  unfolding other_index mutate_word until_changed string_candidate bytes_candidate
      duration_candidate mutate_raw_frame
  mutate_operation fuel (load_role i) c s = rewrite load_role (other_index i c.num_roles s)
  mutate_operation fuel (load_connection i) c s =
      rewrite load_connection (other_index i c.num_connections s)
  mutate_operation fuel (load_version v) c s =
      rewrite load_version (mutate_word fuel 16 versions v s)
  mutate_operation fuel (load_flags v) c s = rewrite load_flags (mutate_word fuel 32 flag_words v s)
  mutate_operation fuel (load_port v) c s = rewrite load_port (mutate_word fuel 16 ports v s)
  mutate_operation fuel (load_str v) c s =
      rewrite load_str (until_changed fuel list_eq string_candidate v s)
  mutate_operation fuel (load_bytes v) c s =
      rewrite load_bytes (until_changed fuel list_eq bytes_candidate v s)
  mutate_operation fuel (load_duration v) c s =
      rewrite load_duration (until_changed fuel ◌==◌ duration_candidate v s)
  mutate_operation fuel (send_raw_frame message_type extension_type) c s =
      let (first, s') = R.random_bool s in
      mutate_raw_frame fuel message_type extension_type first s'
  mutate_operation fuel _ c s = (none, s)

  -- Whether an operation's value is drawn until it has changed: it always admits a rewrite.
  unfoldable pub is_drawn : Operation → Bool
  is_drawn (load_version _) = true
  is_drawn (load_flags _) = true
  is_drawn (load_port _) = true
  is_drawn (load_str _) = true
  is_drawn (load_bytes _) = true
  is_drawn (load_duration _) = true
  is_drawn (send_raw_frame _ _) = true
  is_drawn _ = false

  -- Where a drawn value is none, `choose` panicked or the draws did not end within the fuel: `panic`.
  -- the loop of `OperationMutator::mutate` over a random order of the instructions
  unfoldable pub mutate_first : ℕ → List ℕ → Program → S → Result MutatorError (Program × S)
  unfolding mutate_operation is_drawn
  mutate_first fuel [] p s = err no_mutations_available
  mutate_first fuel (index ∷ order) p s = elim (get_elem? p.instructions index) [
    | none ↦ panic
    | some i ↦
        let (mutated, s') = mutate_operation fuel i.operation p.context s in
        let rest = mutate_first fuel order p s' in
        elim mutated [
          | none ↦ if is_drawn i.operation then panic else rest
          | some operation ↦ ok (
            record p {
              instructions = set p.instructions index (record i { operation = operation });
            },
            s',
          )
        ]
  ]

  -- `OperationMutator::mutate`; its `debug_assert_ne!` is left out
  unfoldable pub operation_mutate : ℕ → Program → S → Result MutatorError (Program × S)
  unfolding mutate_first
  operation_mutate fuel p s =
      let (order, s') = R.shuffle (count_from 0 (length p.instructions)) s in
      mutate_first fuel order p s'
