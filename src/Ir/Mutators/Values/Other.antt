-- ===== src/Ir/Mutators/Values/Other.antt =====
-- What crates/stratamoto-ir/src/mutators/operation.rs makes of an operation.
use stratamoto.Base.{
  ℕ, ◌+◌, ◌-◌, ◌<◌, ◌≡◌, ◌≢◌, refl, sym, Bool, true, false, Option, none, some, inl, inr, ok,
  Bool-cases, leb, ◌==◌, if◌then◌else◌, arith, subst,
}
use stratamoto.Ir.Operation.{
  Operation, load_role, load_connection, load_version, load_flags, load_port, load_str, load_bytes,
  load_duration, send_raw_frame, get_input_variables, get_output_variables,
  get_inner_output_variables,
}
use stratamoto.Ir.Instruction.{ProgramContext}
use stratamoto.Ir.Builder.{check_context}
use stratamoto.Ir.Generators.{Rng, RngLaws}
use stratamoto.Ir.Mutators.Values.{other_index, rewrite, mutate_raw_frame, mutate_operation}

skipped :
    (current count pick k : ℕ)
    → current < count
    → pick < count - 1
    → (if leb current pick then pick + 1 else pick) ≡ k
    → (k < count) × (k ≢ current)
skipped current count pick k l h q = ground arith

module _ {S : Type 0} (R : Rng S) (L : RngLaws R) where
  -- When a draw from a range is in the range, another index that is found is below the count and
  -- is not the current one.
  pub other_index-eq-some :
      (current count k : ℕ) (s : S)
      → (other_index R current count s).0 ≡ some k
      → (k < count) × (k ≢ current)
  unfolding other_index
  other_index-eq-some current count k s e = elim (Bool-cases (count == 0)) [
    | inl z ↦ absurd (let e' = rw z at e in cc)
    | inr nz ↦ elim (Bool-cases (leb count current)) [
      | inl out ↦
          let pick = (R.random_range 0 count s).0 in
          let q : pick ≡ k = (let e' = rw (nz, out) at e in cc) in
          let (_, below) = L.in_range 0 count s (ground arith) in ground arith
      | inr inside ↦ elim (Bool-cases (count == 1)) [
        | inl only ↦ absurd (let e' = rw (nz, inside, only) at e in cc)
        | inr more ↦
            let pick = (R.random_range 0 (count - 1) s).0 in
            let q : (if leb current pick then pick + 1 else pick) ≡ k =
              (let e' = rw (nz, inside, more) at e in cc) in
            let (_, below) = L.in_range 0 (count - 1) s (ground arith) in
            skipped current count pick k (ground arith) below q
      ]
    ]
  ]

-- An operation that may stand where another one stands in a program of a context.
pub record Replaces (c : ProgramContext) (op op' : Operation) : Type 0 where
  pub inputs_same : get_input_variables op' ≡ get_input_variables op
  pub outputs_same : get_output_variables op' ≡ get_output_variables op
  pub inner_outputs_same : get_inner_output_variables op' ≡ get_inner_output_variables op
  pub in_context : check_context c op' ≡ ok tt

Replaces-by :
    {c : ProgramContext} {op op' : Operation} (op'' : Operation)
    → op' ≡ op''
    → Replaces c op op''
    → Replaces c op op'
Replaces-by {c} {op} op'' e h = subst (Replaces c op) (sym e) h

module _ {S : Type 0} (R : Rng S) where
  pub rewrite-eq-some :
      {A : Type 0} (f : A → Operation) (x : Option A × S) {op : Operation}
      → (rewrite R f x).0 ≡ some op
      → (a : A) × (x.0 ≡ some a) × (op ≡ f a)
  rewrite-eq-some f (none, s) e = cc
  rewrite-eq-some f (some a, s) {op} e = (a, refl, (let q : some (f a) ≡ some op = e in cc))

  -- When a draw from a range is in the range, a rewrite gives an operation that reads and makes variables of the same types, and that the
  -- builder accepts in the context.
  pub mutate_operation-Replaces :
      RngLaws R
      → (fuel : ℕ) (op op' : Operation) (c : ProgramContext) (s : S)
      → (mutate_operation R fuel op c s).0 ≡ some op'
      → Replaces c op op'
  unfolding mutate_operation mutate_raw_frame check_context get_input_variables get_output_variables
      get_inner_output_variables
  mutate_operation-Replaces L fuel (load_role i) op' c s e =
      let (k, x, q) = rewrite-eq-some load_role (other_index R i c.num_roles s) e in
      let (below, _) = other_index-eq-some R L i c.num_roles k s x in
      Replaces-by (load_role k) q (record {
        inputs_same = refl;
        outputs_same = refl;
        inner_outputs_same = refl;
        in_context = ground arith;
      })
  mutate_operation-Replaces L fuel (load_connection i) op' c s e =
      let (k, x, q) = rewrite-eq-some load_connection (other_index R i c.num_connections s) e in
      let (below, _) = other_index-eq-some R L i c.num_connections k s x in
      Replaces-by (load_connection k) q (record {
        inputs_same = refl;
        outputs_same = refl;
        inner_outputs_same = refl;
        in_context = ground arith;
      })
  mutate_operation-Replaces L fuel (load_version v) op' c s e =
      let (k, x, q) = rewrite-eq-some load_version _ e in
      Replaces-by (load_version k) q (record {
        inputs_same = refl;
        outputs_same = refl;
        inner_outputs_same = refl;
        in_context = refl;
      })
  mutate_operation-Replaces L fuel (load_flags v) op' c s e =
      let (k, x, q) = rewrite-eq-some load_flags _ e in
      Replaces-by (load_flags k) q (record {
        inputs_same = refl;
        outputs_same = refl;
        inner_outputs_same = refl;
        in_context = refl;
      })
  mutate_operation-Replaces L fuel (load_port v) op' c s e =
      let (k, x, q) = rewrite-eq-some load_port _ e in
      Replaces-by (load_port k) q (record {
        inputs_same = refl;
        outputs_same = refl;
        inner_outputs_same = refl;
        in_context = refl;
      })
  mutate_operation-Replaces L fuel (load_str v) op' c s e =
      let (k, x, q) = rewrite-eq-some load_str _ e in
      Replaces-by (load_str k) q (record {
        inputs_same = refl;
        outputs_same = refl;
        inner_outputs_same = refl;
        in_context = refl;
      })
  mutate_operation-Replaces L fuel (load_bytes v) op' c s e =
      let (k, x, q) = rewrite-eq-some load_bytes _ e in
      Replaces-by (load_bytes k) q (record {
        inputs_same = refl;
        outputs_same = refl;
        inner_outputs_same = refl;
        in_context = refl;
      })
  mutate_operation-Replaces L fuel (load_duration v) op' c s e =
      let (k, x, q) = rewrite-eq-some load_duration _ e in
      Replaces-by (load_duration k) q (record {
        inputs_same = refl;
        outputs_same = refl;
        inner_outputs_same = refl;
        in_context = refl;
      })
  mutate_operation-Replaces L fuel (send_raw_frame m x) op' c s e =
      raw_frame m x (R.random_bool s).0 (R.random_bool s).1 e
    where
      raw_frame :
          (m x : ℕ) (b : Bool) (s' : S)
          → (mutate_raw_frame R fuel m x b s').0 ≡ some op'
          → Replaces c (send_raw_frame m x) op'
      raw_frame m x true s' e =
          let (k, _, q) = rewrite-eq-some (λ v. send_raw_frame v x) _ e in
          Replaces-by (send_raw_frame k x) q (record {
            inputs_same = refl;
            outputs_same = refl;
            inner_outputs_same = refl;
            in_context = refl;
          })
      raw_frame m x false s' e =
          let (k, _, q) = rewrite-eq-some (λ v. send_raw_frame m v) _ e in
          Replaces-by (send_raw_frame m k) q (record {
            inputs_same = refl;
            outputs_same = refl;
            inner_outputs_same = refl;
            in_context = refl;
          })
  mutate_operation-Replaces L fuel _ op' c s e = cc
