-- ===== src/Ir/Generators.antt =====
-- crates/stratamoto-ir/src/generators, and `get_random_variable` of builder.rs.
-- The random numbers are a parameter. A generator changes the builder and the generator of random
-- numbers; after an error its callers drop the builder, so that only the error is left.
pub mod Appends
pub mod Setup
use stratamoto.Base.{
  ℕ, zero, suc, ◌+◌, ◌≤◌, ◌<◌, ◌≡◌, Bool, true, false, ◌&&◌, List, [], ◌∷◌, Option, none, some,
  if◌then◌else◌, contains, ok, err, panic,
}
use stratamoto.Ir.Variable.{Variable, variable_eq}
use stratamoto.Ir.Operation.{Operation, load_role, load_bytes, send_raw_frame}
use stratamoto.Ir.Builder.{ProgramBuilder, ScopedVariable, IndexedVariable, Checked, append_op}

-- What the source uses of the `rand` crate, on the state S: a number from a range that excludes its
-- upper end, a toss of a coin, a word of a number of bits, an element
-- of a list, and a random order.
pub record Rng (S : Type 0) : Type 1 where
  pub random_range : ℕ → ℕ → S → ℕ × S
  pub random_bool : S → Bool × S
  pub random : ℕ → S → ℕ × S
  pub choose : {A : Type 0} → List A → S → Option A × S
  pub shuffle : List ℕ → S → List ℕ × S

-- What is documented of it.
pub record RngLaws {S : Type 0} (R : Rng S) : Type 0 where
  pub in_range :
      (low high : ℕ) (s : S)
      → low < high
      → (low ≤ (R.random_range low high s).0) × ((R.random_range low high s).0 < high)

abbrev pub Gen : Type 0 → Type 0 → Type 0
Gen S A = ProgramBuilder × S → Checked (A × (ProgramBuilder × S))

infixl 5 ◌>>=◌ ◌>>◌
-- The `?` operator.
unfoldable pub ◌>>=◌ : {S A B : Type 0} → Gen S A → (A → Gen S B) → Gen S B
(g >>= k) w = elim (g w) [ ok (a, w') ↦ k a w' | err e ↦ err e | panic ↦ panic ]

abbrev pub ◌>>◌ : {S B : Type 0} → Gen S (Unit {0}) → Gen S B → Gen S B
g >> k = g >>= λ _. k

unfoldable pub return : {S A : Type 0} → A → Gen S A
return a w = ok (a, w)

-- a draw of a random number
unfoldable pub draw : {S A : Type 0} → (S → A × S) → Gen S A
draw f (b, s) = let (a, s') = f s in ok (a, (b, s'))

-- the result of an append, and the builder after it
abbrev pub appended :
    {S A : Type 0} → S → ProgramBuilder × Checked A → Checked (A × (ProgramBuilder × S))
appended s (b, ok a) = ok (a, (b, s))
appended s (b, err e) = err e
appended s (b, panic) = panic

-- `builder.append_op(..)?`
unfoldable pub append_step :
    {S : Type 0} → Operation → List IndexedVariable → Gen S (List IndexedVariable)
append_step op inputs (b, s) = appended s (append_op op inputs b)

-- the `assert_eq!` of `one`
unfoldable pub one : {S : Type 0} → List IndexedVariable → Gen S IndexedVariable
one (v ∷ []) w = ok (v, w)
one _ w = panic

unfoldable pub append_one : {S : Type 0} → Operation → List IndexedVariable → Gen S IndexedVariable
unfolding append_step one
append_one op inputs = append_step op inputs >>= one

unfoldable pub append_unit : {S : Type 0} → Operation → List IndexedVariable → Gen S (Unit {0})
unfolding append_step
append_unit op inputs = append_step op inputs >>= λ _. return tt

-- the variables of one type that are in scope, from an index on
unfoldable pub candidates :
    ProgramBuilder → Variable → ℕ → List ScopedVariable → List IndexedVariable
candidates b var index [] = []
candidates b var index (v ∷ vs) =
    let rest = candidates b var (index + 1) vs in
    if variable_eq v.var var && contains b.active_scopes_set v.scope_id
    then record { var = v.var; index = index } ∷ rest
    else rest

module _ {S : Type 0} (R : Rng S) where
  unfoldable pub get_random_variable : Variable → Gen S (Option IndexedVariable)
  unfolding candidates
  get_random_variable var (b, s) = draw (R.choose (candidates b var 0 b.variables)) (b, s)

  -- what opens a connection to a role
  unfoldable pub connect_to : ℕ → Gen S IndexedVariable
  unfolding append_one
  connect_to role = do
    role_var ← append_one (load_role role) []
    append_one Operation.connect (role_var ∷ [])

  unfoldable pub random_bytes : ℕ → Gen S (List ℕ)
  random_bytes zero = return []
  random_bytes (suc n) = do byte ← draw (R.random 8); bytes ← random_bytes n; return (byte ∷ bytes)

  unfoldable pub or_connect : ℕ → Option IndexedVariable → Gen S IndexedVariable
  unfolding connect_to
  or_connect role (some connection) = return connection
  or_connect role none = connect_to role

  unfoldable pub random_extension : Bool → Gen S ℕ
  random_extension true = draw (R.random_range 1 0x8000)
  random_extension false = return 0

  -- `RawFrameGenerator::generate`
  unfoldable pub generate_raw_frame : ℕ → Gen S (Unit {0})
  unfolding or_connect get_random_variable append_one append_unit random_bytes random_extension
  generate_raw_frame role = do
    found ← get_random_variable Variable.connection
    connection ← or_connect role found
    length ← draw (R.random_range 0 64)
    payload ← random_bytes length
    bytes ← append_one (load_bytes payload) []
    extended ← draw R.random_bool
    extension_type ← random_extension extended
    message_type ← draw (R.random 8)
    append_unit (send_raw_frame message_type extension_type) (connection ∷ bytes ∷ [])
