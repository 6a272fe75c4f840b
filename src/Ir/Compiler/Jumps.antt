-- ===== src/Ir/Compiler/Jumps.antt =====
-- Where the enter actions that crates/stratamoto-ir/src/compiler.rs makes point to.
pub mod Arms
pub mod Compiled
pub mod Setups
use stratamoto.Base.{
  map_get, ℕ, zero, suc, ◌+◌, ◌<◌, ◌≡◌, ◌≢◌, ◌⊎◌, inl, inr, refl, ap, sym, ◌∙◌, Bool, true, false,
  List, [], ◌∷◌, ◌++◌, length, get_elem?, set, some, All, All-get_elem?, get_elem?-lt-length,
  get_elem?-append_left, get_elem?-append_cases, get_elem?-append_mid, get_elem?-set_self,
  get_elem?-set_other, length-set, length-append, subst, arith, ltb, ◌==◌, Bool-cases,
}
use stratamoto.Ir.Spec.{
  SetupConnectionSpec, await_setup_response, Action, enter_on_setup_success, exit_block,
}
use stratamoto.Ir.Compiler.{Compiler}

-- An index is in a stack of indices.
abbrev pub Stacked : ℕ → List ℕ → Type 0
Stacked k [] = ⊥
Stacked k (b ∷ blocks) = (k ≡ b) ⊎ Stacked k blocks

-- A block that is closed ends after its beginning, at an exit.
pub record Closed (actions : List Action) (enter end : ℕ) : Type 0 where
  pub after : enter < end
  pub exits : get_elem? actions end ≡ some exit_block

-- Every enter action is closed or in the stack of open blocks.
abbrev pub Jumps : List Action → List ℕ → Type 0
Jumps actions blocks =
    (k s e : ℕ)
    → get_elem? actions k ≡ some (enter_on_setup_success s e)
    → Closed actions k e ⊎ Stacked k blocks

abbrev pub IsEnter : Action → Type 0
IsEnter (enter_on_setup_success _ _) = Unit
IsEnter _ = ⊥

-- The setup of an await action is recorded.
abbrev pub Known : List (ℕ × SetupConnectionSpec) → Action → Type 0
Known setups (await_setup_response _ session _ _) =
    (spec : SetupConnectionSpec) × (map_get session setups ≡ some spec)
Known setups _ = Unit

-- Recorded setups stay recorded.
abbrev pub KeepsSetups : Compiler → Compiler → Type 0
KeepsSetups c c' =
    (i : ℕ) (spec : SetupConnectionSpec)
    → map_get i c.metadata.session_setups ≡ some spec
    → (spec' : SetupConnectionSpec) × (map_get i c'.metadata.session_setups ≡ some spec')

-- What an instruction does to the actions, the open blocks and the recorded setups.
pub data Moves (c c' : Compiler) : Type 0 where
  appends :
      (ns : List Action)
      → All (λ a. ¬ (IsEnter a)) ns
      → c'.actions ≡ c.actions ++ ns
      → c'.blocks ≡ c.blocks
      → KeepsSetups c c'
      → All (Known c'.metadata.session_setups) ns
      → Moves c c'
  opens :
      (s e : ℕ)
      → c'.actions ≡ c.actions ++ enter_on_setup_success s e ∷ []
      → c'.blocks ≡ length c.actions ∷ c.blocks
      → KeepsSetups c c'
      → Moves c c'
  closes :
      (enter s e : ℕ)
      → c.blocks ≡ enter ∷ c'.blocks
      → get_elem? (c.actions ++ exit_block ∷ []) enter ≡ some (enter_on_setup_success s e)
      → c'.actions
        ≡ set (c.actions ++ exit_block ∷ []) enter (enter_on_setup_success s (length c.actions))
      → KeepsSetups c c'
      → Moves c c'

Closed-append :
    {xs : List Action} (ys : List Action) (k e : ℕ) → Closed xs k e → Closed (xs ++ ys) k e
Closed-append {xs} ys k e h = record {
  after = h.after;
  exits = get_elem?-append_left xs ys e h.exits;
}

Jumps-append :
    (xs ns : List Action) (blocks : List ℕ)
    → All (λ a. ¬ (IsEnter a)) ns
    → Jumps xs blocks
    → Jumps (xs ++ ns) blocks
Jumps-append xs ns blocks none_enters h k s e g = elim (get_elem?-append_cases xs ns k g) [
  | inl old ↦ elim (h k s e old) [ inl c ↦ inl (Closed-append ns k e c) | inr t ↦ inr t ]
  | inr (j, _, new) ↦ absurd (All-get_elem? (λ a. ¬ (IsEnter a)) ns j none_enters new tt)
]

Jumps-open :
    (xs : List Action) (s e : ℕ) (blocks : List ℕ)
    → Jumps xs blocks
    → Jumps (xs ++ enter_on_setup_success s e ∷ []) (length xs ∷ blocks)
Jumps-open xs s e blocks h k s' e' g = elim (get_elem?-append_cases xs _ k g) [
  | inl old ↦ elim (h k s' e' old) [ inl c ↦ inl (Closed-append _ k e' c) | inr t ↦ inr (inr t) ]
  | inr (j, at, new) ↦
      inr (inl (let l = get_elem?-lt-length (enter_on_setup_success s e ∷ []) j new in omega arith))
]

exits_at_end : (xs : List Action) → get_elem? (xs ++ exit_block ∷ []) (length xs) ≡ some exit_block
exits_at_end xs = get_elem?-append_mid xs [] exit_block

not_the_exit : (j : ℕ) {s e : ℕ} → get_elem? (exit_block ∷ []) j ≢ some (enter_on_setup_success s e)
not_the_exit zero h = cc
not_the_exit (suc j) h = cc

-- An enter action before an exit that is pushed is one of the actions before.
enters_before :
    (xs : List Action) (k s e : ℕ)
    → get_elem? (xs ++ exit_block ∷ []) k ≡ some (enter_on_setup_success s e)
    → get_elem? xs k ≡ some (enter_on_setup_success s e)
enters_before xs k s e g = elim (get_elem?-append_cases xs (exit_block ∷ []) k g) [
  | inl old ↦ old
  | inr (j, _, new) ↦ absurd (not_the_exit j new)
]

-- Patching an enter action moves no exit.
exit_stays :
    (xs : List Action) (enter s e n k : ℕ)
    → get_elem? (xs ++ exit_block ∷ []) enter ≡ some (enter_on_setup_success s e)
    → get_elem? (xs ++ exit_block ∷ []) k ≡ some exit_block
    → get_elem? (set (xs ++ exit_block ∷ []) enter (enter_on_setup_success s n)) k ≡ some exit_block
exit_stays xs enter s e n k found x =
    get_elem?-set_other (xs ++ exit_block ∷ []) enter k (enter_on_setup_success s n) (λ q.
      let y : some exit_block ≡ some (enter_on_setup_success s e) =
        sym x ∙ (ap (get_elem? (xs ++ exit_block ∷ [])) q ∙ found) in
      cc)
    ∙ x

Jumps-close :
    (xs : List Action) (enter s e : ℕ) (blocks : List ℕ)
    → get_elem? (xs ++ exit_block ∷ []) enter ≡ some (enter_on_setup_success s e)
    → Jumps xs (enter ∷ blocks)
    → Jumps (set (xs ++ exit_block ∷ []) enter (enter_on_setup_success s (length xs))) blocks
Jumps-close xs enter s e blocks found h k s' e' g = elim (Bool-cases (k == enter)) [
  | inl t ↦
      let k_is : k ≡ enter = ground arith in
      let below = get_elem?-lt-length xs enter (enters_before xs enter s e found) in
      let longer : enter < length (xs ++ exit_block ∷ []) =
        omega (arith, length-append xs (exit_block ∷ [])) in
      let patched =
        get_elem?-set_self (xs ++ exit_block ∷ []) enter (enter_on_setup_success s (length xs))
          longer in
      let same : some (enter_on_setup_success s (length xs)) ≡ some (enter_on_setup_success s' e') =
        sym patched
        ∙ (ap (get_elem? (set (xs ++ exit_block ∷ []) enter (enter_on_setup_success s (length xs))))
              (sym k_is)
            ∙ g) in
      let end_is : length xs ≡ e' = cc in
      inl (
        subst (Closed (set (xs ++ exit_block ∷ []) enter (enter_on_setup_success s (length xs))) k)
          end_is
          (record {
            after = omega arith;
            exits = exit_stays xs enter s e (length xs) (length xs) found (exits_at_end xs);
          }))
  | inr f ↦
      let other : k ≢ enter = ground arith in
      let before = enters_before xs k s' e' (
        sym (
          get_elem?-set_other (xs ++ exit_block ∷ []) enter k (enter_on_setup_success s (length xs))
            other)
        ∙ g) in
      elim (h k s' e' before) [
        | inl c ↦ inl (record {
          after = c.after;
          exits =
              exit_stays xs enter s e (length xs) e' found (get_elem?-append_left xs _ e' c.exits);
        })
        | inr (inl q) ↦ absurd (other q)
        | inr (inr t) ↦ inr t
      ]
]

pub Moves-Jumps :
    {c c' : Compiler} → Moves c c' → Jumps c.actions c.blocks → Jumps c'.actions c'.blocks
Moves-Jumps {c} {c'} (appends ns none_enters a b k w) h =
    rw (a, b) (Jumps-append c.actions ns c.blocks none_enters h)
Moves-Jumps {c} {c'} (opens s e a b k) h = rw (a, b) (Jumps-open c.actions s e c.blocks h)
Moves-Jumps {c} {c'} (closes enter s e b found a k) h =
    rw a (Jumps-close c.actions enter s e c'.blocks found (subst (Jumps c.actions) b h))
