-- ===== src/Ir/Minimizers.antt =====
-- crates/stratamoto-ir/src/minimizers: the three minimizers and their iterators.
-- `success`, `failure` and `next` are the trait's methods. A loop that moves a counter runs on
-- fuel, and says so when it runs out.
pub mod Cutting
pub mod Nopping
pub mod Block
use stratamoto.Base.{
  ℕ, zero, suc, ◌+◌, ◌<◌, ◌≡◌, Bool, true, false, List, [], ◌∷◌, length, Option, none, some, leb,
  ltb, ◌&&◌, if◌then◌else◌,
}
use stratamoto.Ir.Instruction.{Program}
use stratamoto.Ir.Builder.{is_statically_valid}
use stratamoto.Ir.Renumber.{without}

-- One call of an iterator's `next` on the state S.
pub data Next (S : Type 0) : Type 0 where
  yielded : Program → S → Next S
  exhausted : S → Next S
  panicked out_of_fuel : Next S

-- The trait `Minimizer`: what a minimizer with the state S does.
pub record Minimizer (S : Type 0) : Type 0 where
  pub new : Program → S
  pub next : S → Next S
  pub success : S → S
  pub failure : S → S
  pub current : S → Program

-- What one call of `next` gives: a statically valid program, that becomes the current one on
-- `success`, while the current one stays on `failure`; or the end.
abbrev pub Proposal : {S : Type 0} → Minimizer S → (S → Type 0) → (S → ℕ) → S → Next S → Type 0
Proposal M Ready measure s (yielded c s') =
    (is_statically_valid c ≡ some true)
    × ((Ready (M.success s') × (measure (M.success s') < measure s))
        × ((Ready (M.failure s') × (measure (M.failure s') < measure s))
            × ((M.current (M.success s') ≡ c) × (M.current (M.failure s') ≡ M.current s))))
Proposal M Ready measure s (exhausted s') = M.current s' ≡ M.current s
Proposal M Ready measure s panicked = ⊥
Proposal M Ready measure s out_of_fuel = ⊥

-- What its users rely on. The measure counts down, so that proposing and reporting comes to an
-- end; Ready holds of every state that is reached from a statically valid program.
pub record MinimizerLaws {S : Type 0} (M : Minimizer S) : Type 1 where
  pub Ready : S → Type 0
  pub measure : S → ℕ
  pub new-Ready : (p : Program) → is_statically_valid p ≡ some true → Ready (M.new p)
  pub current-new : (p : Program) → M.current (M.new p) ≡ p
  pub next-Ready : (s : S) → Ready s → Proposal M Ready measure s (M.next s)

-- `vec![false; total]` with the flags of a range set
abbrev pub mark_from : ℕ → ℕ → ℕ → ℕ → List Bool
mark_from index begin end zero = []
mark_from index begin end (suc n) =
    (leb begin index && ltb index end) ∷ mark_from (index + 1) begin end n

unfoldable pub mark : ℕ → ℕ → ℕ → List Bool
mark begin end total = mark_from 0 begin end total

-- A candidate and whether it is statically valid; `none` is a panic.
unfoldable pub try_without : List Bool → Program → Option (Program × Bool)
try_without remove p = elim (without remove p) [
  | none ↦ none
  | some candidate ↦ elim (is_statically_valid candidate) [
    | none ↦ none
    | some valid ↦ some (candidate, valid)
  ]
]
