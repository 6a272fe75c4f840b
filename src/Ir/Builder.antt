-- ===== src/Ir/Builder.antt =====
-- crates/stratamoto-ir/src/builder.rs: the builder's state and its operations.
-- `active_scopes` has the innermost scope first; a method that mutates the builder returns the
-- new one beside its result. A failed `expect` is the result `panic`.
pub mod Facts
pub mod Invariant
pub mod Append
pub mod Safety
pub mod Validity
pub mod Faults
use mathlib.Core.Option
use stratamoto.Base.{
  ℕ, ◌+◌, Bool, true, false, ◌&&◌, List, [], ◌∷◌, ◌++◌, map, length, get_elem?, Option, none, some,
  leb, ◌==◌, if◌then◌else◌, contains, set_insert, set_remove, Result, ok, err, panic, ◌>>=◌, ◌>>◌,
}
use stratamoto.Ir.Variable.{Variable, variable_eq}
use stratamoto.Ir.Operation.{
  Operation, load_role, load_connection, is_block_begin, is_block_end, is_nop,
  is_matching_block_begin, get_output_variables, get_inner_output_variables, num_inputs,
}
use stratamoto.Ir.Errors.{
  ProgramValidationError, invalid_number_of_inputs, variable_not_defined, role_not_found,
  connection_not_found, invalid_block_end, unfinished_block, check_input_types,
}
use stratamoto.Ir.Instruction.{
  Instruction, InstructionContext, global, ProgramContext, Program, entered_context_after_execution,
}

pub record Scope : Type 0 where
  -- the instruction that opened the scope
  pub begin : Option ℕ
  pub id : ℕ
  pub context : InstructionContext

pub record ScopedVariable : Type 0 where
  pub var : Variable
  pub scope_id : ℕ

pub record IndexedVariable : Type 0 where
  pub var : Variable
  pub index : ℕ

pub record ProgramBuilder : Type 0 where
  pub context : ProgramContext
  pub active_scopes : List Scope
  pub active_scopes_set : List ℕ
  pub scope_counter : ℕ
  pub variables : List ScopedVariable
  pub instructions : List Instruction

-- `Result<T, ProgramValidationError>`
abbrev pub Checked : Type 0 → Type 0
Checked = Result ProgramValidationError

unfoldable pub enter_scope : Option ℕ → InstructionContext → ProgramBuilder → ProgramBuilder
enter_scope begin context b =
    let counter = b.scope_counter + 1 in
    record b {
      scope_counter = counter;
      active_scopes = record { begin = begin; id = counter; context = context } ∷ b.active_scopes;
      active_scopes_set = set_insert counter b.active_scopes_set;
    }

unfoldable pub new : ProgramContext → ProgramBuilder
unfolding enter_scope
new context = enter_scope none global (record {
  context = context;
  active_scopes = [];
  active_scopes_set = [];
  scope_counter = 0;
  variables = [];
  instructions = [];
})

pop_scope : List Scope → ProgramBuilder → Option (Scope × ProgramBuilder)
pop_scope [] b = none
pop_scope (s ∷ scopes) b = some (
  s,
  record b { active_scopes = scopes; active_scopes_set = set_remove s.id b.active_scopes_set },
)

-- `none` is the failed `expect`.
unfoldable pub exit_scope : ProgramBuilder → Option (Scope × ProgramBuilder)
unfolding pop_scope
exit_scope b = pop_scope b.active_scopes b

top_scope : List Scope → Option Scope
top_scope [] = none
top_scope (s ∷ _) = some s

unfoldable pub current_scope : ProgramBuilder → Option Scope
unfolding top_scope
current_scope b = top_scope b.active_scopes

unfoldable pub get_variable : ProgramBuilder → ℕ → Option IndexedVariable
get_variable b index = elim (get_elem? b.variables index) [
  | none ↦ none
  | some scoped ↦
      if contains b.active_scopes_set scoped.scope_id
      then some (record { var = scoped.var; index = index })
      else none
]

-- one round of the loop over the inputs in `append`
unfoldable pub resolve_input : ProgramBuilder → ℕ → Checked Variable
resolve_input b index = elim (get_elem? b.variables index) [
  | none ↦ err (variable_not_defined index)
  | some scoped ↦
      if contains b.active_scopes_set scoped.scope_id
      then ok scoped.var
      else err (variable_not_defined index)
]

unfoldable pub resolve_inputs : ProgramBuilder → List ℕ → Checked (List Variable)
resolve_inputs b [] = ok []
resolve_inputs b (index ∷ inputs) = do
  var ← resolve_input b index
  vars ← resolve_inputs b inputs
  ok (var ∷ vars)

-- the bounds of `LoadRole` and `LoadConnection`
unfoldable pub check_context : ProgramContext → Operation → Checked (Unit {0})
check_context c (load_role i) = if leb c.num_roles i then err (role_not_found i) else ok tt
check_context c (load_connection i) =
    if leb c.num_connections i then err (connection_not_found i) else ok tt
check_context c _ = ok tt

-- what `append` checks before it changes anything
unfoldable pub check_instruction : ProgramBuilder → Instruction → Checked (Unit {0})
check_instruction b i =
    if num_inputs i.operation == length i.inputs
    then (do
      vars ← resolve_inputs b i.inputs
      check_input_types i.operation vars
      check_context b.context i.operation)
    else err (invalid_number_of_inputs (length i.inputs) (num_inputs i.operation))

-- the scope that a block end leaves: the builder without it, and whether the end fits
unfoldable pub leave_block : Operation → ProgramBuilder → ProgramBuilder × Checked (Unit {0})
leave_block op b = elim (exit_scope b) [
  | none ↦ (b, panic)
  | some (exited, b') ↦ elim exited.begin [
    | none ↦ (b', panic)
    | some k ↦ elim (get_elem? b.instructions k) [
      | none ↦ (b', panic)
      | some begin ↦
          if is_matching_block_begin op begin.operation
          then (b', ok tt)
          else (b', err (invalid_block_end begin.operation op))
    ]
  ]
]

-- Nop variables are placed in scope 0, which is never active.
unfoldable pub output_scope_id : Operation → ProgramBuilder → Option ℕ
output_scope_id op b =
    if is_nop op then some 0 else Option.map (λ (s : Scope). s.id) (current_scope b)

unfoldable pub inner_scope_id : Operation → ProgramBuilder → ℕ
inner_scope_id op b = if is_nop op then 0 else b.scope_counter

abbrev pub scoped : ℕ → Variable → ScopedVariable
scoped scope_id var = record { var = var; scope_id = scope_id }

-- `self.variables.extend(..)`
unfoldable pub declare_variables : List Variable → ℕ → ProgramBuilder → ProgramBuilder
declare_variables vars scope_id b = record b {
  variables = b.variables ++ map (scoped scope_id) vars;
}

unfoldable pub enter_block : Instruction → ProgramBuilder → Option ProgramBuilder
enter_block i b =
    if is_block_begin i.operation
    then Option.map (λ context. enter_scope (some (length b.instructions)) context b)
        (entered_context_after_execution i)
    else some b

-- the second half of `append`, once everything is checked
unfoldable pub push_instruction : Instruction → ProgramBuilder → Option ProgramBuilder
unfolding declare_variables
push_instruction i b = elim (output_scope_id i.operation b) [
  | none ↦ none
  | some scope_id ↦
      elim (enter_block i (declare_variables (get_output_variables i.operation) scope_id b)) [
        | none ↦ none
        | some b' ↦
            let b'' =
              declare_variables (get_inner_output_variables i.operation)
                (inner_scope_id i.operation b') b' in
            some (record b'' { instructions = b''.instructions ++ i ∷ [] })
      ]
]

-- `vars[first..]`, numbered from `first`
unfoldable pub new_variables : ℕ → ℕ → List ScopedVariable → List IndexedVariable
new_variables first at [] = []
new_variables first at (v ∷ vars) =
    if leb first at
    then record { var = v.var; index = at } ∷ new_variables first (at + 1) vars
    else new_variables first (at + 1) vars

close_block : Operation → ProgramBuilder → ProgramBuilder × Checked (Unit {0})
close_block op b = if is_block_end op then leave_block op b else (b, ok tt)

finish_append :
    Instruction
    → ProgramBuilder
    → Option ProgramBuilder
    → ProgramBuilder × Checked (List IndexedVariable)
finish_append i b none = (b, panic)
finish_append i b (some b') = (b', ok (new_variables (length b.variables) 0 b'.variables))

pub after_close :
    Instruction
    → ProgramBuilder × Checked (Unit {0})
    → ProgramBuilder × Checked (List IndexedVariable)
after_close i (b, ok _) = finish_append i b (push_instruction i b)
after_close i (b, err e) = (b, err e)
after_close i (b, panic) = (b, panic)

after_check :
    Instruction
    → ProgramBuilder
    → Checked (Unit {0})
    → ProgramBuilder × Checked (List IndexedVariable)
after_check i b (ok _) = after_close i (close_block i.operation b)
after_check i b (err e) = (b, err e)
after_check i b panic = (b, panic)

-- An end that does not fit its block is an error that leaves the block closed, as in the source.
unfoldable pub append :
    Instruction → ProgramBuilder → ProgramBuilder × Checked (List IndexedVariable)
unfolding after_check after_close finish_append close_block
append i b = after_check i b (check_instruction b i)

unfoldable pub append_op :
    Operation
    → List IndexedVariable
    → ProgramBuilder
    → ProgramBuilder × Checked (List IndexedVariable)
append_op operation inputs b =
    append
      (record { inputs = map (λ (v : IndexedVariable). v.index) inputs; operation = operation }) b

unfoldable pub kept : ProgramBuilder × Checked (List IndexedVariable) → Checked ProgramBuilder
kept (b, ok _) = ok b
kept (b, err e) = err e
kept (b, panic) = panic

-- `builder.append(..)?` where the builder is dropped on an error
unfoldable pub append_kept : Instruction → ProgramBuilder → Checked ProgramBuilder
unfolding kept
append_kept i b = kept (append i b)

unfoldable pub append_all : List Instruction → ProgramBuilder → Checked ProgramBuilder
append_all [] b = ok b
append_all (i ∷ is) b = append_kept i b >>= append_all is

unfoldable pub from_prefix : ProgramContext → List Instruction → Checked ProgramBuilder
unfolding append_all
from_prefix context is = append_all is (new context)

unfoldable pub from_program : Program → Checked ProgramBuilder
unfolding from_prefix
from_program p = from_prefix p.context p.instructions

unfoldable pub finalize : ProgramBuilder → Checked Program
finalize b =
    let done : Checked Program =
      ok (record { context = b.context; instructions = b.instructions }) in
    elim (current_scope b) [
      | none ↦ done
      | some scope ↦ elim scope.begin [
        | none ↦ done
        | some k ↦ elim (get_elem? b.instructions k) [
          | none ↦ panic
          | some begin ↦ err (unfinished_block begin.operation)
        ]
      ]
    ]

unfoldable pub validate : Program → Checked Program
validate p = from_program p >>= finalize

-- `Program::is_statically_valid`; `none` is a panic of the builder.
unfoldable pub is_statically_valid : Program → Option Bool
is_statically_valid p = elim (validate p) [ ok _ ↦ some true | err _ ↦ some false | panic ↦ none ]
