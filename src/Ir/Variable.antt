-- ===== src/Ir/Variable.antt =====
-- crates/stratamoto-ir/src/variable.rs: subprotocols and the types of a program's values.
use stratamoto.Base.{
  ℕ, ◌≡◌, refl, ◌↔◌, Bool, true, false, Option, none, some, arith, ◌==◌, if◌then◌else◌,
}

pub data Protocol : Type 0 where
  mining job_declaration template_distribution : Protocol

-- `Protocol::id`, a `u8`
unfoldable pub id : Protocol → ℕ
id mining = 0
id job_declaration = 1
id template_distribution = 2

-- `Protocol::from_id`
unfoldable pub from_id : ℕ → Option Protocol
from_id i =
    if i == 0
    then some mining
    else if i == 1
    then some job_declaration
    else if i == 2
    then some template_distribution
    else none

pub data Variable : Type 0 where
  nop : Variable
  role : Variable
  connection : Variable
  setup_attempt : Protocol → Variable
  session : Protocol → Variable
  version flags port str bytes duration : Variable
  mut_setup_connection : Variable
  const_setup_connection : Protocol → Variable

unfoldable pub Protocol-discrete : Discrete Protocol
Protocol-discrete = hlevel

unfoldable pub Variable-discrete : Discrete Variable
unfolding Protocol-discrete
Variable-discrete = hlevel

-- the derived `PartialEq`
unfoldable pub variable_eq : Variable → Variable → Bool
unfolding Variable-discrete
variable_eq a b = elim (Variable-discrete a b) [ yes _ ↦ true | no _ ↦ false ]

pub variable_eq→eq : (a b : Variable) → variable_eq a b ≡ true → a ≡ b
unfolding variable_eq
variable_eq→eq a b =
    elim (Variable-discrete a b)
      as (λ d. (elim d as (λ _. Bool) [ yes _ ↦ true | no _ ↦ false ]) ≡ true → a ≡ b) [
        | yes e ↦ λ _. e
        | no n ↦ λ h. cc
      ]

pub variable_eq_refl : (a : Variable) → variable_eq a a ≡ true
unfolding variable_eq
variable_eq_refl a =
    elim (Variable-discrete a a)
      as (λ d. (elim d as (λ _. Bool) [ yes _ ↦ true | no _ ↦ false ]) ≡ true) [
        | yes e ↦ refl
        | no n ↦ absurd (n refl)
      ]

-- A subprotocol is read back from its identifier, and an identifier that is read is that of the
-- subprotocol it is read as.
pub from_id-eq-some_iff : (i : ℕ) (p : Protocol) → (from_id i ≡ some p) ↔ (i ≡ id p)
unfolding from_id id
from_id-eq-some_iff i mining = ground arith
from_id-eq-some_iff i job_declaration = ground arith
from_id-eq-some_iff i template_distribution = ground arith
