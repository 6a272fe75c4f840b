-- ===== src/Ir/Compiler/Types.antt =====
-- The values that the compiler of crates/stratamoto-ir/src/compiler.rs keeps are of the types that the
-- builder gave the variables, and reading an input of the right type succeeds.
use stratamoto.Base.{
  ℕ, zero, suc, ◌≡◌, refl, List, [], ◌∷◌, ◌++◌, map, get_elem?, set, some, ok, err, ◌>>=◌, subst,
}
use stratamoto.Ir.Variable.{Variable, Protocol}
use stratamoto.Ir.Spec.{SetupConnectionSpec, string_too_long, encoding}
use stratamoto.Ir.Builder.{ScopedVariable, ProgramBuilder}
use stratamoto.Ir.Builder.Append.{InScope, Resolved}
use stratamoto.Ir.Compiler.{
  Value, Compiler, Compiled, value, input, read, as_role, as_connection, as_version, as_flags,
  as_port, as_string, as_bytes, as_duration, as_attempt, as_setup, edit_setup,
}

-- A value is of a variable's type; a finalized message is of its protocol.
abbrev pub HasType : Value → Variable → Type 0
HasType Value.nop Variable.nop = Unit
HasType (Value.role _) Variable.role = Unit
HasType (Value.connection _) Variable.connection = Unit
HasType (Value.setup_attempt _ _) (Variable.setup_attempt _) = Unit
HasType Value.session (Variable.session _) = Unit
HasType (Value.version _) Variable.version = Unit
HasType (Value.flags _) Variable.flags = Unit
HasType (Value.port _) Variable.port = Unit
HasType (Value.str _) Variable.str = Unit
HasType (Value.bytes _) Variable.bytes = Unit
HasType (Value.duration _) Variable.duration = Unit
HasType (Value.setup_connection _) Variable.mut_setup_connection = Unit
HasType (Value.setup_connection s) (Variable.const_setup_connection p) = s.protocol ≡ p
HasType _ _ = ⊥

abbrev pub Typed : List Value → List Variable → Type 0
Typed [] [] = Unit
Typed (v ∷ vs) (t ∷ ts) = HasType v t × Typed vs ts
Typed _ _ = ⊥

pub Typed-append :
    (vs : List Value) (ts : List Variable) (vs' : List Value) (ts' : List Variable)
    → Typed vs ts
    → Typed vs' ts'
    → Typed (vs ++ vs') (ts ++ ts')
Typed-append [] [] vs' ts' h h' = h'
Typed-append [] (t ∷ ts) vs' ts' h h' = absurd h
Typed-append (v ∷ vs) [] vs' ts' h h' = absurd h
Typed-append (v ∷ vs) (t ∷ ts) vs' ts' h h' = (h.0, Typed-append vs ts vs' ts' h.1 h')

Typed-get_elem? :
    (vs : List Value) (ts : List Variable) (i : ℕ) {t : Variable}
    → Typed vs ts
    → get_elem? ts i ≡ some t
    → (v : Value) × (get_elem? vs i ≡ some v) × HasType v t
Typed-get_elem? [] [] i h e = cc
Typed-get_elem? [] (t ∷ ts) i h e = absurd h
Typed-get_elem? (v ∷ vs) [] i h e = absurd h
Typed-get_elem? (v ∷ vs) (t ∷ ts) zero {t = u} h e =
    let same : t ≡ u = cc in (v, refl, subst (HasType v) same h.0)
Typed-get_elem? (v ∷ vs) (t ∷ ts) (suc i) h e = Typed-get_elem? vs ts i h.1 e

-- Overwriting a value by another of its variable's type keeps the types.
pub Typed-set :
    (vs : List Value) (ts : List Variable) (i : ℕ) {t : Variable} (v : Value)
    → Typed vs ts
    → get_elem? ts i ≡ some t
    → HasType v t
    → Typed (set vs i v) ts
Typed-set [] [] i v h e k = tt
Typed-set [] (t ∷ ts) i v h e k = absurd h
Typed-set (u ∷ vs) [] i v h e k = absurd h
Typed-set (u ∷ vs) (t ∷ ts) zero {t = t'} v h e k =
    let same : t' ≡ t = cc in (subst (HasType v) same k, h.1)
Typed-set (u ∷ vs) (t ∷ ts) (suc i) v h e k = (h.0, Typed-set vs ts i v h.1 e k)

abbrev pub types_of : ProgramBuilder → List Variable
types_of b = map (λ (v : ScopedVariable). v.var) b.variables

get_elem?-types :
    (vs : List ScopedVariable) (i : ℕ) {s : ScopedVariable}
    → get_elem? vs i ≡ some s
    → get_elem? (map (λ (v : ScopedVariable). v.var) vs) i ≡ some s.var
get_elem?-types [] i e = cc
get_elem?-types (v ∷ vs) zero e = cc
get_elem?-types (v ∷ vs) (suc i) e = get_elem?-types vs i e

pub InScope-type :
    {b : ProgramBuilder} {i : ℕ} {t : Variable} → InScope b i t → get_elem? (types_of b) i ≡ some t
InScope-type {b} {i} s = rw (← s.typed) (get_elem?-types b.variables i s.found)

-- The results that a validated program can have: a value with a property, or one of the two errors
-- that are about the message's contents.
pub data Sound {ℓ} {A : Type 0} (P : A → Type ℓ) : Compiled A → Type ℓ where
  gives : {a : A} → P a → Sound P (ok a)
  too_long : {i : ℕ} → Sound P (err (string_too_long i))
  not_encoded : {e : List ℕ} → Sound P (err (encoding e))

pub Sound-bind {ℓ κ} :
    {A B : Type 0} {P : A → Type ℓ} {Q : B → Type κ} {r : Compiled A} {f : A → Compiled B}
    → Sound P r
    → ((a : A) → P a → Sound Q (f a))
    → Sound Q (r >>= f)
Sound-bind (gives h) k = k _ h
Sound-bind too_long k = too_long
Sound-bind not_encoded k = not_encoded

-- A reader succeeds on the values of a type, with a property of what it reads.
abbrev pub Reads : {A : Type 0} → (ℕ → Value → Compiled A) → Variable → (A → Type 0) → Type 0
Reads {A} reads t P = (i : ℕ) (v : Value) → HasType v t → (a : A) × (reads i v ≡ ok a) × P a

pub reads_role : Reads as_role Variable.role (λ _. Unit)
unfolding as_role
reads_role i (Value.role a) h = (a, refl, tt)
reads_role i _ h = absurd h

pub reads_connection : Reads as_connection Variable.connection (λ _. Unit)
unfolding as_connection
reads_connection i (Value.connection a) h = (a, refl, tt)
reads_connection i _ h = absurd h

pub reads_version : Reads as_version Variable.version (λ _. Unit)
unfolding as_version
reads_version i (Value.version a) h = (a, refl, tt)
reads_version i _ h = absurd h

pub reads_flags : Reads as_flags Variable.flags (λ _. Unit)
unfolding as_flags
reads_flags i (Value.flags a) h = (a, refl, tt)
reads_flags i _ h = absurd h

pub reads_port : Reads as_port Variable.port (λ _. Unit)
unfolding as_port
reads_port i (Value.port a) h = (a, refl, tt)
reads_port i _ h = absurd h

pub reads_string : Reads as_string Variable.str (λ _. Unit)
unfolding as_string
reads_string i (Value.str a) h = (a, refl, tt)
reads_string i _ h = absurd h

pub reads_bytes : Reads as_bytes Variable.bytes (λ _. Unit)
unfolding as_bytes
reads_bytes i (Value.bytes a) h = (a, refl, tt)
reads_bytes i _ h = absurd h

pub reads_duration : Reads as_duration Variable.duration (λ _. Unit)
unfolding as_duration
reads_duration i (Value.duration a) h = (a, refl, tt)
reads_duration i _ h = absurd h

pub reads_attempt : (p : Protocol) → Reads as_attempt (Variable.setup_attempt p) (λ _. Unit)
unfolding as_attempt
reads_attempt p i (Value.setup_attempt s c) h = ((s, c), refl, tt)
reads_attempt p i _ h = absurd h

pub reads_setup : Reads as_setup Variable.mut_setup_connection (λ _. Unit)
unfolding as_setup
reads_setup i (Value.setup_connection s) h = (s, refl, tt)
reads_setup i _ h = absurd h

pub reads_final_setup :
    (p : Protocol) → Reads as_setup (Variable.const_setup_connection p) (λ s. s.protocol ≡ p)
unfolding as_setup
reads_final_setup p i (Value.setup_connection s) h = (s, refl, h)
reads_final_setup p i _ h = absurd h

-- The inputs name variables of the given types, one each.
abbrev pub Inputs : List Variable → List ℕ → List Variable → Type 0
Inputs ts [] [] = Unit
Inputs ts (i ∷ is) (v ∷ vs) = (get_elem? ts i ≡ some v) × Inputs ts is vs
Inputs ts _ _ = ⊥

pub Resolved-Inputs :
    (b : ProgramBuilder) (is : List ℕ) (vs : List Variable)
    → Resolved b is vs
    → Inputs (types_of b) is vs
Resolved-Inputs b [] [] r = tt
Resolved-Inputs b [] (v ∷ vs) r = absurd r
Resolved-Inputs b (i ∷ is) [] r = absurd r
Resolved-Inputs b (i ∷ is) (v ∷ vs) r = (InScope-type r.0, Resolved-Inputs b is vs r.1)

-- Reading an input of the reader's type succeeds.
pub read-Sound :
    {A : Type 0} {reads : ℕ → Value → Compiled A} {t : Variable} {P : A → Type 0}
    → Reads reads t P
    → (c : Compiler) (ts : List Variable) (inputs : List ℕ) (k : ℕ) {i : ℕ} → Typed c.values ts
    → get_elem? inputs k ≡ some i
    → get_elem? ts i ≡ some t
    → Sound P (read reads c inputs k)
unfolding read input value
read-Sound {reads} {P} r c ts inputs k {i} h e f =
    let (v, g, typed) = Typed-get_elem? c.values ts i h f in
    let (a, q, p) = r i v typed in
    subst (Sound P)
      (let whole : ok a ≡ read reads c inputs k = rw (e, read, input) (rw (g, value) (rw q)) in
        whole)
      (gives p)

-- Editing a message under construction succeeds, and leaves values of the same types.
pub edit_setup-Sound :
    (edit : SetupConnectionSpec → SetupConnectionSpec) (c : Compiler) (ts : List Variable)
    (inputs : List ℕ) {i : ℕ}
    → Typed c.values ts
    → get_elem? inputs 0 ≡ some i
    → get_elem? ts i ≡ some Variable.mut_setup_connection
    → Sound
        (λ (c' : Compiler). Typed c'.values ts × (c'.actions ≡ c.actions) × (c'.blocks ≡ c.blocks))
        (edit_setup edit c inputs)
unfolding edit_setup input value
edit_setup-Sound edit c ts inputs {i} h e f =
    let (v, g, typed) = Typed-get_elem? c.values ts i h f in
    let (s, q, _) = reads_setup i v typed in
    let c' : Compiler = record c { values = set c.values i (Value.setup_connection (edit s)) } in
    subst (Sound _)
      (let whole : ok c' ≡ edit_setup edit c inputs =
          rw (e, edit_setup, input) (rw (g, value) (rw q)) in
        whole)
      (gives (Typed-set c.values ts i (Value.setup_connection (edit s)) h f tt, refl, refl))
