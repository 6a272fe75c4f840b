-- ===== src/Ir/Builder/Faults.antt =====
-- Block ends that do not fit, in crates/stratamoto-ir/src/builder.rs: one with no block to end, and
-- one that ends a block of another kind.
use stratamoto.Base.{
  ◌≡◌, refl, ap, sym, ◌∙◌, Bool, Option, true, false, List, [], ◌∷◌, ◌++◌, some, none, ok, err,
  panic, ◌>>=◌, >>=-eq-ok, >>=_assoc, >>=_congr, subst, length, ◌+◌, get_elem?,
  get_elem?-append_mid,
}
use stratamoto.Ir.Operation.{
  begin_build_setup_connection, end_on_setup_success, is_block_end, is_matching_block_begin,
  get_input_variables, num_inputs,
}
use stratamoto.Ir.Errors.{
  ProgramValidationError, invalid_block_end, check_input_types, check_zipped,
}
use stratamoto.Ir.Instruction.{
  Instruction, ProgramContext, Program, entered_context, build_setup_connection,
}
use stratamoto.Ir.Builder.{
  Scope, IndexedVariable, ProgramBuilder, Checked, new, append, append_kept, kept, append_all,
  from_prefix, from_program, finalize, validate, is_statically_valid, check_instruction,
  resolve_inputs, check_context, close_block, leave_block, after_check, after_close, finish_append,
  new_variables,
}
use stratamoto.Ir.Builder.Facts.{Opens}
use stratamoto.Ir.Builder.Invariant.{
  IsBuilt, left_for, Left, at_global, closed, leave_block-Left, Pushed, push_instruction-Pushed,
}
use stratamoto.Ir.Builder.Append.{append_of_block_end}
use stratamoto.Ir.Builder.Safety.{AtGlobal, append-eq-panic_iff, stray_end_checks}
use stratamoto.Ir.Builder.Validity.{from_prefix-Built, finalize-eq-ok_iff, finalize-eq-err}

abbrev pub stray_end : Instruction
stray_end = record { inputs = []; operation = end_on_setup_success }

abbrev pub begin_build : Instruction
begin_build = record { inputs = []; operation = begin_build_setup_connection }

pub append_all-append :
    (xs ys : List Instruction) (b : ProgramBuilder)
    → append_all (xs ++ ys) b ≡ (append_all xs b >>= append_all ys)
unfolding append_all
append_all-append [] ys b = refl
append_all-append (i ∷ xs) ys b =
    >>=_congr (append_kept i b) (append_all-append xs ys)
    ∙ sym (>>=_assoc (append_kept i b) (append_all xs) (append_all ys))

pub from_prefix-append :
    (c : ProgramContext) (xs ys : List Instruction)
    → from_prefix c (xs ++ ys) ≡ (from_prefix c xs >>= append_all ys)
unfolding from_prefix
from_prefix-append c xs ys = append_all-append xs ys (new c)

kept-panic : (x : ProgramBuilder × Checked (List IndexedVariable)) → x.1 ≡ panic → kept x ≡ panic
unfolding kept
kept-panic (b, ok v) h = cc
kept-panic (b, err e) h = cc
kept-panic (b, panic) h = refl

is_statically_valid→validate :
    (p : Program) → is_statically_valid p ≡ some true → (q : Program) × (validate p ≡ ok q)
unfolding is_statically_valid
is_statically_valid→validate p h = by_result (validate p) refl
  where
    by_result : (r : Checked Program) → validate p ≡ r → (q : Program) × (validate p ≡ ok q)
    by_result (ok q) e = (q, e)
    by_result (err x) e = absurd (
        let same =
          ap
            (λ r. elim r as (λ _. Option Bool) [
              | ok _ ↦ some true
              | err _ ↦ some false
              | panic ↦ none
            ])
            e in
        cc)
    by_result panic e = absurd (
        let same =
          ap
            (λ r. elim r as (λ _. Option Bool) [
              | ok _ ↦ some true
              | err _ ↦ some false
              | panic ↦ none
            ])
            e in
        cc)

-- The builder of a statically valid program, which has no block open.
pub valid-builder :
    (p : Program)
    → is_statically_valid p ≡ some true
    → (b : ProgramBuilder) × (from_prefix p.context p.instructions ≡ ok b) × IsBuilt b × AtGlobal b
unfolding validate from_program
valid-builder p h =
    let (q, v) = is_statically_valid→validate p h in
    let (b, f, g) = >>=-eq-ok (from_prefix p.context p.instructions) finalize v in
    let built = (from_prefix-Built p.context p.instructions f).built in
    (b, f, built, ((finalize-eq-ok_iff b q built).0 g).0)

validate-stray_end :
    (c : ProgramContext) (is rest : List Instruction) (b : ProgramBuilder)
    → from_prefix c is ≡ ok b
    → IsBuilt b
    → AtGlobal b
    → validate (record { context = c; instructions = is ++ stray_end ∷ rest }) ≡ panic
unfolding validate from_program append_all append_kept
validate-stray_end c is rest b f built global =
    let stops : append_kept stray_end b ≡ panic =
      kept-panic (append stray_end b)
        ((append-eq-panic_iff stray_end b built).1 (refl, refl, global)) in
    rw (from_prefix-append, f) (rw stops)

-- A statically valid program followed by an end of a success block, and by anything after it, is
-- not found invalid: the validation panics.
pub is_statically_valid-stray_end :
    (p : Program) (rest : List Instruction)
    → is_statically_valid p ≡ some true
    → is_statically_valid (record p { instructions = p.instructions ++ stray_end ∷ rest }) ≡ none
unfolding is_statically_valid
is_statically_valid-stray_end p rest h =
    let (b, f, built, global) = valid-builder p h in
    rw (validate-stray_end p.context p.instructions rest b f built global, is_statically_valid)

-- A consistent builder with no open block takes in the beginning of a message.
begins_message :
    (b : ProgramBuilder)
    → IsBuilt b
    → (b' : ProgramBuilder) × (vars : List IndexedVariable) × (append begin_build b ≡ (b', ok vars))
      × Pushed begin_build b b'
unfolding append after_check after_close close_block finish_append check_instruction resolve_inputs
    check_input_types check_zipped check_context get_input_variables num_inputs is_block_end
begins_message b h =
    let (b', p) = push_instruction-Pushed begin_build b h in
    (b', new_variables (length b.variables) 0 b'.variables, rw p.pushes, p)

module _ (b b' : ProgramBuilder) (h : IsBuilt b) (global : AtGlobal b)
    (p : Pushed begin_build b b') where
  abbrev message_scope : Scope
  message_scope = record {
    begin = some (length b.instructions);
    id = b.scope_counter + 1;
    context = build_setup_connection;
  }

  scopes_of_message : b'.active_scopes ≡ message_scope ∷ b.active_scopes
  unfolding entered_context
  scopes_of_message = p.scopes_grown

  opened_by_begin :
      (s : Scope) → s ≡ message_scope → (o : Opens b'.instructions s) → o.by ≡ begin_build
  opened_by_begin s e o =
      let at : some (length b.instructions) ≡ some o.at =
        sym (ap (λ (x : Scope). x.begin) e) ∙ o.begin_at in
      let same : length b.instructions ≡ o.at = cc in
      let found : get_elem? (b.instructions ++ begin_build ∷ []) (length b.instructions)
          ≡ some o.by =
        rw (← p.instructions_grown, same) o.found in
      let there = get_elem?-append_mid b.instructions [] begin_build in cc

  -- Ending the message as if it were a success block is an error, and leaves no block open.
  mismatched_end :
      (append stray_end b' ≡ (
        left_for message_scope b.active_scopes b',
        err (invalid_block_end begin_build_setup_connection end_on_setup_success),
      ))
      × IsBuilt (left_for message_scope b.active_scopes b')
  unfolding is_block_end is_matching_block_begin after_close
  mismatched_end = of_Left (leave_block-Left end_on_setup_success b' p.built)
    where
      of_Left :
          Left end_on_setup_success b'
          → (append stray_end b' ≡ (
            left_for message_scope b.active_scopes b',
            err (invalid_block_end begin_build_setup_connection end_on_setup_success),
          ))
            × IsBuilt (left_for message_scope b.active_scopes b')
      of_Left (at_global _ s e _) =
          let same : s ∷ [] ≡ message_scope ∷ b.active_scopes = sym e ∙ scopes_of_message in
          let (t, g) = global in
          absurd (let q : s ∷ [] ≡ message_scope ∷ (t ∷ []) = rw g at same in cc)
      of_Left (closed s rest o e eq h') =
          let same : s ∷ rest ≡ message_scope ∷ b.active_scopes = sym e ∙ scopes_of_message in
          let top : s ≡ message_scope = cc in
          let below : rest ≡ b.active_scopes = cc in
          let by : o.by ≡ begin_build = opened_by_begin s top o in
          let left : left_for s rest b' ≡ left_for message_scope b.active_scopes b' =
            λ j. left_for (top j) (below j) b' in
          let leaves : leave_block end_on_setup_success b' ≡ (
            left_for s rest b',
            err (invalid_block_end begin_build_setup_connection end_on_setup_success),
          ) =
            rw by at eq in
          (
            append_of_block_end stray_end b' p.built (stray_end_checks b') refl
                ∙ ap (after_close stray_end) leaves
                ∙ ap
                    (λ (x : ProgramBuilder).
                      let r : ProgramBuilder × Checked (List IndexedVariable) = (
                        x,
                        err (invalid_block_end begin_build_setup_connection end_on_setup_success),
                      ) in
                      r)
                    left,
            subst IsBuilt left h',
          )

  abbrev begun : Program
  begun = record { context = b.context; instructions = b.instructions ++ begin_build ∷ [] }

  -- Once the wrong end was refused, the builder finalizes.
  finalize-mismatched : finalize (left_for message_scope b.active_scopes b') ≡ ok begun
  finalize-mismatched =
      (finalize-eq-ok_iff (left_for message_scope b.active_scopes b') begun mismatched_end.1).1 (
        global,
        λ j. record { context = sym p.context_kept j; instructions = sym p.instructions_grown j },
      )

  -- Before it was, it does not.
  finalize-begun : (e : ProgramValidationError) × (finalize b' ≡ err e)
  finalize-begun =
      finalize-eq-err b' p.built message_scope global.0 []
        (scopes_of_message ∙ ap (λ ss. message_scope ∷ ss) global.1)

validate-begun :
    (c : ProgramContext) (is : List Instruction) (b b' : ProgramBuilder)
    (vars : List IndexedVariable) {e : ProgramValidationError}
    → from_prefix c is ≡ ok b
    → append begin_build b ≡ (b', ok vars)
    → finalize b' ≡ err e
    → validate (record { context = c; instructions = is ++ begin_build ∷ [] }) ≡ err e
unfolding validate from_program append_all append_kept kept
validate-begun c is b b' vars f a g = rw (from_prefix-append, f) (rw (a, append_kept) g)

-- Appending is not atomic. After a statically valid program, begin a message and then end a success
-- block: the second append is an error, yet the builder then finalizes, and to a program that is
-- not statically valid.
pub finalize-after_error :
    (p : Program)
    → is_statically_valid p ≡ some true
    → (b : ProgramBuilder) × (b₁ : ProgramBuilder) × (b₂ : ProgramBuilder) × (vars : List
        IndexedVariable)
      × (from_program p ≡ ok b)
      × (append begin_build b ≡ (b₁, ok vars))
      × (append stray_end b₁
          ≡ (b₂, err (invalid_block_end begin_build_setup_connection end_on_setup_success)))
      × (finalize b₂ ≡ ok (record p { instructions = p.instructions ++ begin_build ∷ [] }))
      × (is_statically_valid (record p { instructions = p.instructions ++ begin_build ∷ [] })
          ≡ some false)
unfolding from_program is_statically_valid
finalize-after_error p h =
    let (b, f, built, global) = valid-builder p h in
    let (b', vars, e, pushed) = begins_message b built in
    let same = from_prefix-Built p.context p.instructions f in
    let program : begun b b' built global pushed
        ≡ record p { instructions = p.instructions ++ begin_build ∷ [] } =
      λ j. record {
        context = same.context_is j;
        instructions = same.instructions_are j ++ begin_build ∷ [];
      } in
    let (x, open_block) = finalize-begun b b' built global pushed in
    (
      b,
      b',
      left_for (message_scope b b' built global pushed) b.active_scopes b',
      vars,
      f,
      e,
      (mismatched_end b b' built global pushed).0,
      finalize-mismatched b b' built global pushed ∙ ap ok program,
      rw (validate-begun p.context p.instructions b b' vars f e open_block, is_statically_valid),
    )
