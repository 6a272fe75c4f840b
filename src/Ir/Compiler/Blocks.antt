-- ===== src/Ir/Compiler/Blocks.antt =====
-- The enter actions that the compiler of crates/stratamoto-ir/src/compiler.rs keeps in `blocks` are those
-- of the open success blocks.
use stratamoto.Base.{
  ℕ, zero, suc, ◌≡◌, refl, List, [], ◌∷◌, ◌++◌, get_elem?, set, some, get_elem?-append_left,
}
use stratamoto.Ir.Operation.{
  Operation, begin_build_setup_connection, end_build_setup_connection, begin_on_setup_success,
  end_on_setup_success,
}
use stratamoto.Ir.Instruction.{InstructionContext, global, build_setup_connection, on_setup_success}
use stratamoto.Ir.Spec.{Action, enter_on_setup_success}

-- There is an enter action at an index.
pub record EntersAt (actions : List Action) (enter : ℕ) : Type 0 where
  pub session : ℕ
  pub end : ℕ
  pub found : get_elem? actions enter ≡ some (enter_on_setup_success session end)

-- One enter action for each open success block, innermost first.
abbrev pub BlocksMatch : List Action → List InstructionContext → List ℕ → Type 0
BlocksMatch actions [] [] = Unit
BlocksMatch actions [] (_ ∷ _) = ⊥
BlocksMatch actions (on_setup_success ∷ cs) (enter ∷ blocks) =
    EntersAt actions enter × BlocksMatch actions cs blocks
BlocksMatch actions (on_setup_success ∷ cs) [] = ⊥
BlocksMatch actions (build_setup_connection ∷ cs) blocks = BlocksMatch actions cs blocks
BlocksMatch actions (global ∷ cs) blocks = BlocksMatch actions cs blocks

-- A change of the actions that keeps enter actions where they are keeps the match.
pub BlocksMatch-imp :
    (xs ys : List Action)
    → ((k : ℕ) → EntersAt xs k → EntersAt ys k)
    → (cs : List InstructionContext) (blocks : List ℕ) → BlocksMatch xs cs blocks
    → BlocksMatch ys cs blocks
BlocksMatch-imp xs ys f [] [] h = tt
BlocksMatch-imp xs ys f [] (k ∷ blocks) h = h
BlocksMatch-imp xs ys f (on_setup_success ∷ cs) (k ∷ blocks) h =
    (f k h.0, BlocksMatch-imp xs ys f cs blocks h.1)
BlocksMatch-imp xs ys f (on_setup_success ∷ cs) [] h = h
BlocksMatch-imp xs ys f (build_setup_connection ∷ cs) blocks h = BlocksMatch-imp xs ys f cs blocks h
BlocksMatch-imp xs ys f (global ∷ cs) blocks h = BlocksMatch-imp xs ys f cs blocks h

pub EntersAt-append : (xs ys : List Action) (k : ℕ) → EntersAt xs k → EntersAt (xs ++ ys) k
EntersAt-append xs ys k h = record {
  session = h.session;
  end = h.end;
  found = get_elem?-append_left xs ys k h.found;
}

-- Patching one enter action keeps them all.
pub EntersAt-set :
    (xs : List Action) (enter session end k : ℕ)
    → EntersAt xs k
    → EntersAt (set xs enter (enter_on_setup_success session end)) k
EntersAt-set [] enter session end k h = h
EntersAt-set (x ∷ xs) zero session end zero h = record {
  session = session;
  end = end;
  found = refl;
}
EntersAt-set (x ∷ xs) zero session end (suc k) h = record {
  session = h.session;
  end = h.end;
  found = h.found;
}
EntersAt-set (x ∷ xs) (suc enter) session end zero h = record {
  session = h.session;
  end = h.end;
  found = h.found;
}
EntersAt-set (x ∷ xs) (suc enter) session end (suc k) h =
    let there =
      EntersAt-set xs enter session end k
        (record { session = h.session; end = h.end; found = h.found }) in
    record { session = there.session; end = there.end; found = there.found }

-- How an operation changes the contexts of the open scopes.
abbrev pub Turns : Operation → List InstructionContext → List InstructionContext → Type 0
Turns begin_build_setup_connection cs cs' = cs' ≡ build_setup_connection ∷ cs
Turns (begin_on_setup_success _) cs cs' = cs' ≡ on_setup_success ∷ cs
Turns (end_build_setup_connection _) cs cs' = cs ≡ build_setup_connection ∷ cs'
Turns end_on_setup_success cs cs' = cs ≡ on_setup_success ∷ cs'
Turns _ cs cs' = cs' ≡ cs
