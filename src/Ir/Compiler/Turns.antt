-- ===== src/Ir/Compiler/Turns.antt =====
-- How an instruction that crates/stratamoto-ir/src/builder.rs accepts changes the types and the scopes that
-- the compiler of crates/stratamoto-ir/src/compiler.rs has to follow.
use stratamoto.Base.{◌≡◌, refl, ap, ◌∙◌, true, false, List, ◌∷◌, ◌++◌, map, some, none}
use stratamoto.Ir.Variable.{Protocol}
use stratamoto.Ir.Operation.{
  Operation, begin_build_setup_connection, end_build_setup_connection, begin_on_setup_success,
  end_on_setup_success, is_block_end, is_matching_block_begin, get_output_variables,
  get_inner_output_variables,
}
use stratamoto.Ir.Instruction.{
  Instruction, InstructionContext, entered_context, build_setup_connection, on_setup_success,
}
use stratamoto.Ir.Builder.{Scope, ScopedVariable, ProgramBuilder}
use stratamoto.Ir.Builder.Invariant.{opened_scopes}
use stratamoto.Ir.Builder.Append.{Closing, no_end, ended, Appended}
use stratamoto.Ir.Builder.Validity.{Closing-kept}
use stratamoto.Ir.Compiler.Types.{types_of}
use stratamoto.Ir.Compiler.Blocks.{Turns}

abbrev pub contexts : List Scope → List InstructionContext
contexts = map (λ (s : Scope). s.context)

build_context :
    (p : Protocol) (by : Operation) {context : InstructionContext}
    → is_matching_block_begin (end_build_setup_connection p) by ≡ true
    → entered_context by ≡ some context
    → context ≡ build_setup_connection
unfolding is_matching_block_begin entered_context
build_context p begin_build_setup_connection m e = cc
build_context p _ m e = cc

success_context :
    (by : Operation) {context : InstructionContext}
    → is_matching_block_begin end_on_setup_success by ≡ true
    → entered_context by ≡ some context
    → context ≡ on_setup_success
unfolding is_matching_block_begin entered_context
success_context (begin_on_setup_success p) m e = cc
success_context _ m e = cc

-- The contexts below a block that an operation ends.
Turns-of_end :
    (op by : Operation) (context : InstructionContext) (rest : List InstructionContext)
    → is_block_end op ≡ true
    → is_matching_block_begin op by ≡ true
    → entered_context by ≡ some context
    → Turns op (context ∷ rest) rest
unfolding is_block_end
Turns-of_end (end_build_setup_connection p) by context rest t m e =
    ap (λ c. c ∷ rest) (build_context p by m e)
Turns-of_end end_on_setup_success by context rest t m e =
    ap (λ c. c ∷ rest) (success_context by m e)
Turns-of_end op by context rest t m e = cc

-- An operation that ends no block turns the contexts as `opened_scopes` does.
Turns-of_open :
    (op : Operation) (mid : ProgramBuilder)
    → is_block_end op ≡ false
    → Turns op (contexts mid.active_scopes) (contexts (opened_scopes (entered_context op) mid))
unfolding is_block_end entered_context
Turns-of_open (end_build_setup_connection p) mid f = cc
Turns-of_open end_on_setup_success mid f = cc
Turns-of_open op mid f = refl

opens_nothing : (op : Operation) → is_block_end op ≡ true → entered_context op ≡ none
unfolding is_block_end entered_context
opens_nothing begin_build_setup_connection t = cc
opens_nothing (begin_on_setup_success p) t = cc
opens_nothing op t = refl

-- A successful append turns the contexts of the open scopes as its operation says.
pub Appended-Turns :
    {i : Instruction} {b b' : ProgramBuilder}
    → Appended i b b'
    → Turns i.operation (contexts b.active_scopes) (contexts b'.active_scopes)
Appended-Turns {i} {b} {b'} a = of_closing a.closing
  where
    scopes : b'.active_scopes ≡ opened_scopes (entered_context i.operation) a.mid
    scopes = a.pushed.scopes_grown

    of_closing :
        Closing i.operation b a.mid
        → Turns i.operation (contexts b.active_scopes) (contexts b'.active_scopes)
    of_closing (no_end f same) = rw (scopes, ← same) (Turns-of_open i.operation a.mid f)
    of_closing (ended t s rest o e m same) =
        rw (scopes, opens_nothing i.operation t, e, same)
          (Turns-of_end i.operation o.by.operation s.context (contexts rest) t m o.enters)

-- A successful append extends the types by the operation's variables.
pub Appended-types :
    {i : Instruction} {b b' : ProgramBuilder}
    → Appended i b b'
    → types_of b'
      ≡ types_of b ++ (get_output_variables i.operation ++ get_inner_output_variables i.operation)
Appended-types {i} {b} a =
    a.pushed.variables_grown
    ∙ ap
        (λ vs.
          map (λ (v : ScopedVariable). v.var) vs
          ++ (get_output_variables i.operation ++ get_inner_output_variables i.operation))
        (Closing-kept a.closing).2
