-- ===== src/Ir/Renumber/Closed.antt =====
-- The programs of crates/stratamoto-ir/src/lib.rs whose inputs all name earlier variables.
use stratamoto.Base.{
  ℕ, ◌+◌, ◌<◌, ◌≡◌, ap, List, [], ◌∷◌, ◌++◌, map, length, get_elem?-lt-length, All, ok,
  length-append, length-map, >>=-eq-ok, subst, arith,
}
use stratamoto.Ir.Variable.{Variable}
use stratamoto.Ir.Instruction.{Instruction, ProgramContext}
use stratamoto.Ir.Operation.{
  num_outputs, num_inner_outputs, get_input_variables, get_output_variables,
  get_inner_output_variables,
}
use stratamoto.Ir.Builder.{
  ProgramBuilder, ScopedVariable, append_kept, append_all, from_prefix, new,
}
use stratamoto.Ir.Builder.Invariant.{IsBuilt, new-IsBuilt}
use stratamoto.Ir.Builder.Append.{Appended, Resolved}
use stratamoto.Ir.Builder.Validity.{append_kept-eq-ok, Closing-kept}
use stratamoto.Ir.Renumber.{count_outputs}

-- The inputs are below the number of the variables made before.
abbrev pub Closed : ℕ → List Instruction → Type 0
Closed n [] = Unit
Closed n (i ∷ is) = All (λ k. k < n) i.inputs × Closed (n + count_outputs i.operation) is

Resolved-lt :
    (b : ProgramBuilder) (is : List ℕ) (vs : List Variable)
    → Resolved b is vs
    → All (λ k. k < length b.variables) is
Resolved-lt b [] [] h = tt
Resolved-lt b [] (v ∷ vs) h = absurd h
Resolved-lt b (i ∷ is) [] h = absurd h
Resolved-lt b (i ∷ is) (v ∷ vs) (h, hs) =
    (get_elem?-lt-length b.variables i h.found, Resolved-lt b is vs hs)

-- An append makes the variables that its instruction counts.
Appended-variables :
    {i : Instruction} {b b' : ProgramBuilder}
    → Appended i b b'
    → length b'.variables ≡ length b.variables + count_outputs i.operation
unfolding count_outputs num_outputs num_inner_outputs
Appended-variables {i} {b} {b'} a =
    let var : ScopedVariable → Variable = λ v. v.var in
    let grown = ap length a.pushed.variables_grown in
    let (_, _, same) = Closing-kept a.closing in
    omega (
      arith,
      grown,
      ap length same,
      length-map var b'.variables,
      length-map var a.mid.variables,
      length-append (map var a.mid.variables)
          (get_output_variables i.operation ++ get_inner_output_variables i.operation),
      length-append (get_output_variables i.operation) (get_inner_output_variables i.operation),
    )

append_all-Closed :
    (is : List Instruction) (b : ProgramBuilder) {b' : ProgramBuilder}
    → IsBuilt b
    → append_all is b ≡ ok b'
    → Closed (length b.variables) is
unfolding append_all
append_all-Closed [] b h e = tt
append_all-Closed (i ∷ is) b h e =
    let (mid, k, rest) = >>=-eq-ok (append_kept i b) (append_all is) e in
    let a = append_kept-eq-ok i b h k in
    (
      Resolved-lt b i.inputs (get_input_variables i.operation) a.fits.resolved,
      subst (λ n. Closed n is) (Appended-variables a)
          (append_all-Closed is mid a.pushed.built rest),
    )

-- In a prefix that the builder accepts every input names an earlier variable.
pub from_prefix-Closed :
    (c : ProgramContext) (is : List Instruction) {b : ProgramBuilder}
    → from_prefix c is ≡ ok b
    → Closed 0 is
unfolding from_prefix new
from_prefix-Closed c is e = append_all-Closed is (new c) (new-IsBuilt c) e
