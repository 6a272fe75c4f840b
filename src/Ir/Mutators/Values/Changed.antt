-- ===== src/Ir/Mutators/Values/Changed.antt =====
-- A rewrite of crates/stratamoto-ir/src/mutators/operation.rs changes the operation.
use stratamoto.Base.{
  ℕ, zero, suc, ◌≡◌, ◌≢◌, refl, sym, ◌∙◌, Bool, true, false, List, [], ◌∷◌, Option, none, some, inl,
  inr, Bool-cases, ◌==◌, arith, subst,
}
use stratamoto.Ir.Operation.{
  Operation, load_role, load_connection, load_version, load_flags, load_port, load_str, load_bytes,
  load_duration, send_raw_frame,
}
use stratamoto.Ir.Instruction.{ProgramContext}
use stratamoto.Ir.Generators.{Rng, RngLaws}
use stratamoto.Ir.Mutators.Values.{
  list_eq, other_index, until_changed, mutate_word, mutate_raw_frame, mutate_operation,
}
use stratamoto.Ir.Mutators.Values.Other.{other_index-eq-some, rewrite-eq-some}

==_refl : (n : ℕ) → (n == n) ≡ true
==_refl n = ground arith

list_eq_refl : (xs : List ℕ) → list_eq xs xs ≡ true
unfolding list_eq
list_eq_refl [] = refl
list_eq_refl (x ∷ xs) = rw (==_refl x, list_eq_refl xs) refl

module _ {S : Type 0} (R : Rng S) where
  -- What the loop returns is not the value it was given, for a test that holds of equal values.
  until_changed-ne :
      {A : Type 0} (fuel : ℕ) (same : A → A → Bool) (candidate : A → S → Option A × S)
      (value new : A) (s : S)
      → ((a : A) → same a a ≡ true)
      → (until_changed R fuel same candidate value s).0 ≡ some new
      → new ≢ value
  unfolding until_changed
  until_changed-ne zero same candidate value new s h e = cc
  until_changed-ne (suc fuel) same candidate value new s h e =
      round (candidate value s).0 refl
        (until_changed-ne fuel same candidate value new (candidate value s).1 h)
    where
      round :
          (found : Option _)
          → (candidate value s).0 ≡ found
          → ((until_changed R fuel same candidate value (candidate value s).1).0 ≡ some new
              → new ≢ value)
          → new ≢ value
      round none x again = absurd (let e' = rw (x, until_changed) at e in cc)
      round (some found) x again = elim (Bool-cases (same found value)) [
        | inl t ↦ again (rw (x, until_changed, t) at e)
        | inr f ↦ λ q.
            let e' = rw (x, until_changed, f) at e in
            let r : found ≡ new = cc in
            let y = subst (λ v. same found v ≡ true) (r ∙ q) (h found) in cc
      ]

  mutate_word-ne :
      (fuel bits : ℕ) (edges : List ℕ) (value new : ℕ) (s : S)
      → (mutate_word R fuel bits edges value s).0 ≡ some new
      → new ≢ value
  unfolding mutate_word
  mutate_word-ne fuel bits edges value new s e = until_changed-ne fuel ◌==◌ _ value new s ==_refl e

  mutate_raw_frame-ne :
      (fuel m x : ℕ) (first : Bool) (s : S) (op : Operation)
      → (mutate_raw_frame R fuel m x first s).0 ≡ some op
      → op ≢ send_raw_frame m x
  unfolding mutate_raw_frame
  mutate_raw_frame-ne fuel m x true s op e q =
      let (k, y, r) = rewrite-eq-some R (λ v. send_raw_frame v x) _ e in
      mutate_word-ne fuel 8 _ m k s y
        (let z : send_raw_frame k x ≡ send_raw_frame m x = sym r ∙ q in cc)
  mutate_raw_frame-ne fuel m x false s op e q =
      let (k, y, r) = rewrite-eq-some R (λ v. send_raw_frame m v) _ e in
      mutate_word-ne fuel 16 _ x k s y
        (let z : send_raw_frame m k ≡ send_raw_frame m x = sym r ∙ q in cc)

  -- When a draw from a range is in the range, a rewrite of an operation, of whatever kind, differs
  -- from the operation.
  pub mutate_operation-ne :
      RngLaws R
      → (fuel : ℕ) (op op' : Operation) (c : ProgramContext) (s : S)
      → (mutate_operation R fuel op c s).0 ≡ some op'
      → op' ≢ op
  unfolding mutate_operation
  mutate_operation-ne L fuel (load_role i) op' c s e q =
      let (k, x, r) = rewrite-eq-some R load_role (other_index R i c.num_roles s) e in
      (other_index-eq-some R L i c.num_roles k s x).1
        (let z : load_role k ≡ load_role i = sym r ∙ q in cc)
  mutate_operation-ne L fuel (load_connection i) op' c s e q =
      let (k, x, r) = rewrite-eq-some R load_connection (other_index R i c.num_connections s) e in
      (other_index-eq-some R L i c.num_connections k s x).1
        (let z : load_connection k ≡ load_connection i = sym r ∙ q in cc)
  mutate_operation-ne L fuel (load_version v) op' c s e q =
      let (k, x, r) = rewrite-eq-some R load_version _ e in
      mutate_word-ne fuel 16 _ v k s x (let z : load_version k ≡ load_version v = sym r ∙ q in cc)
  mutate_operation-ne L fuel (load_flags v) op' c s e q =
      let (k, x, r) = rewrite-eq-some R load_flags _ e in
      mutate_word-ne fuel 32 _ v k s x (let z : load_flags k ≡ load_flags v = sym r ∙ q in cc)
  mutate_operation-ne L fuel (load_port v) op' c s e q =
      let (k, x, r) = rewrite-eq-some R load_port _ e in
      mutate_word-ne fuel 16 _ v k s x (let z : load_port k ≡ load_port v = sym r ∙ q in cc)
  mutate_operation-ne L fuel (load_str v) op' c s e q =
      let (k, x, r) = rewrite-eq-some R load_str _ e in
      until_changed-ne fuel list_eq _ v k s list_eq_refl x
        (let z : load_str k ≡ load_str v = sym r ∙ q in cc)
  mutate_operation-ne L fuel (load_bytes v) op' c s e q =
      let (k, x, r) = rewrite-eq-some R load_bytes _ e in
      until_changed-ne fuel list_eq _ v k s list_eq_refl x
        (let z : load_bytes k ≡ load_bytes v = sym r ∙ q in cc)
  mutate_operation-ne L fuel (load_duration v) op' c s e q =
      let (k, x, r) = rewrite-eq-some R load_duration _ e in
      until_changed-ne fuel ◌==◌ _ v k s ==_refl x
        (let z : load_duration k ≡ load_duration v = sym r ∙ q in cc)
  mutate_operation-ne L fuel (send_raw_frame m x) op' c s e q =
      mutate_raw_frame-ne fuel m x (R.random_bool s).0 (R.random_bool s).1 op' e q
  mutate_operation-ne L fuel _ op' c s e q = cc
