-- ===== src/Ir/Errors.antt =====
-- crates/stratamoto-ir/src/errors.rs, and the check of an operation's inputs, `check_input_types`
-- of crates/stratamoto-ir/src/operation.rs, which returns these errors.
use stratamoto.Base.{
  ℕ, ◌≡◌, refl, List, [], ◌∷◌, length, ◌==◌, if◌then◌else◌, Result, ok, err, arith,
}
use stratamoto.Ir.Variable.{Variable, variable_eq, variable_eq→eq}
use stratamoto.Ir.Operation.{Operation, get_input_variables}

pub data ProgramValidationError : Type 0 where
  -- what there is and what is expected
  invalid_number_of_inputs : ℕ → ℕ → ProgramValidationError
  invalid_variable_type : Variable → Variable → ProgramValidationError
  variable_not_defined : ℕ → ProgramValidationError
  role_not_found : ℕ → ProgramValidationError
  connection_not_found : ℕ → ProgramValidationError
  -- the beginning and the end
  invalid_block_end : Operation → Operation → ProgramValidationError
  unfinished_block : Operation → ProgramValidationError

-- the loop over the zipped lists
unfoldable pub check_zipped :
    List Variable → List Variable → Result ProgramValidationError (Unit {0})
check_zipped [] _ = ok tt
check_zipped (g ∷ got) [] = ok tt
check_zipped (g ∷ got) (e ∷ expected) =
    if variable_eq g e then check_zipped got expected else err (invalid_variable_type g e)

unfoldable pub check_input_types :
    Operation → List Variable → Result ProgramValidationError (Unit {0})
unfolding check_zipped
check_input_types op got =
    let expected = get_input_variables op in
    if length got == length expected
    then check_zipped got expected
    else err (invalid_number_of_inputs (length got) (length expected))

check_zipped→eq :
    (got expected : List Variable)
    → length got ≡ length expected
    → check_zipped got expected ≡ ok tt
    → got ≡ expected
unfolding check_zipped
check_zipped→eq [] [] l h = refl
check_zipped→eq [] (e ∷ expected) l h = absurd (omega arith)
check_zipped→eq (g ∷ got) [] l h = absurd (omega arith)
check_zipped→eq (g ∷ got) (e ∷ expected) l h =
    ground (arith, variable_eq→eq g e, check_zipped→eq got expected)

-- The check passes only for variables of exactly the types the operation declares.
pub check_input_types→eq :
    (op : Operation) (got : List Variable)
    → check_input_types op got ≡ ok tt
    → got ≡ get_input_variables op
unfolding check_input_types
check_input_types→eq op got h = ground (arith, check_zipped→eq got (get_input_variables op))
