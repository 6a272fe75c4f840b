-- ===== src/Ir/Generators/Appends.antt =====
-- What the generators of crates/stratamoto-ir/src/generators do to a builder.
use stratamoto.Base.{
  ℕ, zero, suc, ◌≡◌, refl, ◌∙◌, Bool, true, false, List, [], ◌∷◌, ◌++◌, Option, none, some, ok, err,
  panic,
}
use stratamoto.Ir.Variable.{Variable}
use stratamoto.Ir.Operation.{Operation}
use stratamoto.Ir.Instruction.{Instruction}
use stratamoto.Ir.Builder.{
  ProgramBuilder, IndexedVariable, Checked, append, append_op, append_kept, kept, append_all,
}
use stratamoto.Ir.Builder.Faults.{append_all-append}
use stratamoto.Ir.Generators.{
  Rng, Gen, ◌>>=◌, return, draw, appended, append_step, one, append_one, append_unit,
  get_random_variable, connect_to, random_bytes, or_connect, random_extension, generate_raw_frame,
}

-- When a generator succeeds, it has appended some instructions, each of them accepted.
pub record Appends {S A : Type 0} (g : Gen S A) : Type 0 where
  pub instructions_of :
      (w w' : ProgramBuilder × S) (a : A)
      → g w ≡ ok (a, w')
      → (is : List Instruction) × (append_all is w.0 ≡ ok w'.0)

module _ {S : Type 0} where
  pub return-Appends : {A : Type 0} (a : A) → Appends (return {S = S} a)
  unfolding return append_all
  return-Appends a = record {
    instructions_of = λ w w' a' e. ([], (let q : ok w.0 ≡ ok w'.0 = cc in q));
  }

  pub draw-Appends : {A : Type 0} (f : S → A × S) → Appends (draw f)
  unfolding draw append_all
  draw-Appends f = record {
    instructions_of = λ w w' a' e. ([], (let q : ok w.0 ≡ ok w'.0 = cc in q));
  }

  pub >>=-Appends :
      {A B : Type 0} {g : Gen S A} {k : A → Gen S B}
      → Appends g
      → ((a : A) → Appends (k a))
      → Appends (g >>= k)
  unfolding ◌>>=◌
  >>=-Appends {A} {B} {g} {k} h hk = record {
    instructions_of = λ w w' b e. through w w' b (g w) refl e;
  }
    where
      through :
          (w w' : ProgramBuilder × S) (b : B) (r : Checked (A × (ProgramBuilder × S)))
          → g w ≡ r
          → (g >>= k) w ≡ ok (b, w')
          → (is : List Instruction) × (append_all is w.0 ≡ ok w'.0)
      through w w' b (ok (a, mid)) q e =
          let (is, p) = h.instructions_of w mid a q in
          let e' = rw (q, ◌>>=◌) at e in
          let (js, p') = (hk a).instructions_of mid w' b e' in
          (is ++ js, append_all-append is js w.0 ∙ rw p p')
      through w w' b (err x) q e = absurd (let e' = rw (q, ◌>>=◌) at e in cc)
      through w w' b panic q e = absurd (let e' = rw (q, ◌>>=◌) at e in cc)

  appended_once :
      (i : Instruction) (b : ProgramBuilder) (s : S)
      (x : ProgramBuilder × Checked (List IndexedVariable)) (w' : ProgramBuilder × S)
      (a : List IndexedVariable)
      → append i b ≡ x
      → appended s x ≡ ok (a, w')
      → append_all (i ∷ []) b ≡ ok w'.0
  unfolding append_all append_kept kept
  appended_once i b s (b', ok vars) w' a q e = rw q (let r : ok b' ≡ ok w'.0 = cc in r)
  appended_once i b s (b', err x) w' a q e = cc
  appended_once i b s (b', panic) w' a q e = cc

  append_step-Appends :
      (op : Operation) (inputs : List IndexedVariable) → Appends (append_step {S = S} op inputs)
  unfolding append_step append_op
  append_step-Appends op inputs = record {
    instructions_of = λ w w' a e. (_, appended_once _ w.0 w.1 _ w' a refl e);
  }

  one-Appends : (vars : List IndexedVariable) → Appends (one {S = S} vars)
  unfolding one append_all
  one-Appends [] = record { instructions_of = λ w w' a e. absurd (cc) }
  one-Appends (v ∷ []) = record {
    instructions_of = λ w w' a' e. ([], (let q : ok w.0 ≡ ok w'.0 = cc in q));
  }
  one-Appends (v ∷ (v' ∷ vars)) = record { instructions_of = λ w w' a e. absurd (cc) }

  pub append_one-Appends :
      (op : Operation) (inputs : List IndexedVariable) → Appends (append_one {S = S} op inputs)
  unfolding append_one
  append_one-Appends op inputs = >>=-Appends (append_step-Appends op inputs) one-Appends

  pub append_unit-Appends :
      (op : Operation) (inputs : List IndexedVariable) → Appends (append_unit {S = S} op inputs)
  unfolding append_unit
  append_unit-Appends op inputs =
      >>=-Appends (append_step-Appends op inputs) (λ vars. return-Appends tt)

module _ {S : Type 0} (R : Rng S) where
  pub get_random_variable-Appends : (var : Variable) → Appends (get_random_variable R var)
  unfolding get_random_variable draw append_all
  get_random_variable-Appends var = record {
    instructions_of = λ w w' a' e. ([], (let q : ok w.0 ≡ ok w'.0 = cc in q));
  }

  pub or_connect-Appends : (role : ℕ) (o : Option IndexedVariable) → Appends (or_connect R role o)
  unfolding or_connect connect_to
  or_connect-Appends role none = >>=-Appends (append_one-Appends _ _) (λ v. append_one-Appends _ _)
  or_connect-Appends role (some v) = return-Appends v

  random_bytes-Appends : (n : ℕ) → Appends (random_bytes R n)
  unfolding random_bytes
  random_bytes-Appends zero = return-Appends []
  random_bytes-Appends (suc n) =
      >>=-Appends (draw-Appends _)
        (λ byte. >>=-Appends (random_bytes-Appends n) (λ bytes. return-Appends _))

  random_extension-Appends : (b : Bool) → Appends (random_extension R b)
  unfolding random_extension
  random_extension-Appends true = draw-Appends _
  random_extension-Appends false = return-Appends 0

  pub generate_raw_frame-Appends : (role : ℕ) → Appends (generate_raw_frame R role)
  unfolding generate_raw_frame
  generate_raw_frame-Appends role = >>=-Appends (get_random_variable-Appends _) (λ found.
      >>=-Appends (or_connect-Appends role found) (λ link. >>=-Appends (draw-Appends _) (λ length.
        >>=-Appends (random_bytes-Appends length) (λ payload.
          >>=-Appends (append_one-Appends _ _) (λ bytes. >>=-Appends (draw-Appends _) (λ extended.
            >>=-Appends (random_extension-Appends extended) (λ extension_type.
              >>=-Appends (draw-Appends _) (λ message_type. append_unit-Appends _ _))))))))
