-- ===== src/Ir/Renumber/Cut.antt =====
-- `Program::without` of crates/stratamoto-ir/src/lib.rs on a run of instructions at the end.
use stratamoto.Base.{
  ℕ, zero, suc, ◌+◌, ◌-◌, ◌≤◌, ◌<◌, ◌≡◌, refl, ap, ◌∙◌, Bool, true, false, List, [], ◌∷◌, ◌++◌,
  length, get_elem?, All, All-imp, some, inl, inr, Bool-cases, ltb, subst, arith,
}
use stratamoto.Ir.Instruction.{Instruction, Program}
use stratamoto.Ir.Renumber.{
  dropped, count_outputs, count_from, mapped, kept_after, build_mapping, renumber_inputs, renumber,
  keep_rest, without,
}
use stratamoto.Ir.Renumber.Closed.{Closed}

count_all : List Instruction → ℕ
count_all [] = 0
count_all (i ∷ is) = count_outputs i.operation + count_all is

get_elem?-count_from :
    (kept n : ℕ) (zs : List ℕ) (j : ℕ)
    → j < n
    → get_elem? (count_from kept n ++ zs) j ≡ some (kept + j)
get_elem?-count_from kept zero zs j h = absurd (omega arith)
get_elem?-count_from kept (suc n) zs zero h = ap some (omega arith)
get_elem?-count_from kept (suc n) zs (suc j) h =
    get_elem?-count_from (kept + 1) n zs j (omega arith) ∙ ap some (omega arith)

get_elem?-after_count :
    (kept n : ℕ) (zs : List ℕ) (j : ℕ)
    → get_elem? (count_from kept n ++ zs) (n + j) ≡ get_elem? zs j
get_elem?-after_count kept zero zs j = ap (get_elem? zs) (omega arith)
get_elem?-after_count kept (suc n) zs j =
    subst (λ m. get_elem? (count_from kept (suc n) ++ zs) m ≡ get_elem? zs j)
      (let q : suc (n + j) ≡ suc n + j = omega arith in q) (get_elem?-after_count (kept + 1) n zs j)

-- The flags from `index` on leave the first `n` instructions.
abbrev pub KeepsFirst : List Bool → ℕ → ℕ → Type 0
KeepsFirst remove index n = (k : ℕ) → k < n → dropped remove (index + k) ≡ false

abbrev pub DropsNext : List Bool → ℕ → ℕ → Type 0
DropsNext remove index n = (k : ℕ) → k < n → dropped remove (index + k) ≡ true

pub KeepsFirst-tail :
    (remove : List Bool) (index n : ℕ)
    → KeepsFirst remove index (suc n)
    → KeepsFirst remove (index + 1) n
KeepsFirst-tail remove index n h k l =
    subst (λ m. dropped remove m ≡ false) (let q : index + suc k ≡ index + 1 + k = omega arith in q)
      (h (suc k) (omega arith))

pub DropsNext-tail :
    (remove : List Bool) (index n : ℕ)
    → DropsNext remove index (suc n)
    → DropsNext remove (index + 1) n
DropsNext-tail remove index n h k l =
    subst (λ m. dropped remove m ≡ true) (let q : index + suc k ≡ index + 1 + k = omega arith in q)
      (h (suc k) (omega arith))

build_mapping-kept :
    (remove : List Bool) (index kept : ℕ) (xs ys : List Instruction)
    → KeepsFirst remove index (length xs)
    → (j : ℕ) → j < count_all xs
    → get_elem? (build_mapping remove index kept (xs ++ ys)) j ≡ some (kept + j)
unfolding build_mapping count_all mapped kept_after
build_mapping-kept remove index kept [] ys h j l = absurd (omega arith)
build_mapping-kept remove index kept (x ∷ xs) ys h j l =
    let n = count_outputs x.operation in
    let f : dropped remove index ≡ false =
      subst (λ m. dropped remove m ≡ false) (let q : index + 0 ≡ index = omega arith in q)
        (h 0 (omega arith)) in
    rw f (elim (Bool-cases (ltb j n)) [
      | inl lt ↦ get_elem?-count_from kept n _ j (ground arith)
      | inr ge ↦
          let past : n ≤ j = ground arith in
          let q : n + (j - n) ≡ j = omega arith in
          subst
            (λ k.
              get_elem?
                (count_from kept n ++ build_mapping remove (index + 1) (kept + n) (xs ++ ys)) k
              ≡ some (kept + k))
            q
            (get_elem?-after_count kept n _ (j - n)
              ∙ build_mapping-kept remove (index + 1) (kept + n) xs ys
                  (KeepsFirst-tail remove index (length xs) h) (j - n) (omega arith)
              ∙ ap some (omega arith))
    ])

renumber_inputs-same :
    (mapping inputs : List ℕ)
    → All (λ k. get_elem? mapping k ≡ some k) inputs
    → renumber_inputs mapping inputs ≡ some inputs
unfolding renumber_inputs
renumber_inputs-same mapping [] h = refl
renumber_inputs-same mapping (k ∷ ks) (e, h) = rw (e, renumber_inputs-same mapping ks h)

keep_rest-dropped :
    (mapping : List ℕ) (remove : List Bool) (index : ℕ) (ys : List Instruction)
    → DropsNext remove index (length ys)
    → keep_rest mapping remove index ys ≡ some []
unfolding keep_rest
keep_rest-dropped mapping remove index [] h = refl
keep_rest-dropped mapping remove index (y ∷ ys) h =
    let t : dropped remove index ≡ true =
      subst (λ m. dropped remove m ≡ true) (let q : index + 0 ≡ index = omega arith in q)
        (h 0 (omega arith)) in
    rw t
      (keep_rest-dropped mapping remove (index + 1) ys (DropsNext-tail remove index (length ys) h))

keep_rest-kept :
    (mapping : List ℕ) (remove : List Bool) (n index : ℕ) (xs ys : List Instruction)
    → KeepsFirst remove index (length xs)
    → DropsNext remove (index + length xs) (length ys)
    → Closed n xs
    → ((j : ℕ) → j < n + count_all xs → get_elem? mapping j ≡ some j)
    → keep_rest mapping remove index (xs ++ ys) ≡ some xs
unfolding keep_rest count_all renumber
keep_rest-kept mapping remove n index [] ys h d c m =
    keep_rest-dropped mapping remove index ys
      (subst (λ k. DropsNext remove k (length ys)) (let q : index + 0 ≡ index = omega arith in q) d)
keep_rest-kept mapping remove n index (x ∷ xs) ys h d (c, cs) m =
    let f : dropped remove index ≡ false =
      subst (λ m. dropped remove m ≡ false) (let q : index + 0 ≡ index = omega arith in q)
        (h 0 (omega arith)) in
    let same = renumber_inputs-same mapping x.inputs (
      All-imp (λ k. k < n) (λ k. get_elem? mapping k ≡ some k) x.inputs (λ k l. m k (omega arith))
        c) in
    let rest =
      keep_rest-kept mapping remove (n + count_outputs x.operation) (index + 1) xs ys
        (KeepsFirst-tail remove index (length xs) h)
        (subst (λ k. DropsNext remove k (length ys))
          (let q : index + suc (length xs) ≡ index + 1 + length xs = omega arith in q) d)
        cs (λ j l. m j (omega arith)) in
    rw f (rw (same, rest))

-- Dropping a run at the end of a program whose inputs name earlier variables leaves the
-- instructions before it as they are.
pub without-cut :
    (p : Program) (remove : List Bool) (xs ys : List Instruction)
    → p.instructions ≡ xs ++ ys
    → Closed 0 xs
    → KeepsFirst remove 0 (length xs)
    → DropsNext remove (0 + length xs) (length ys)
    → without remove p ≡ some (record { context = p.context; instructions = xs })
unfolding without
without-cut p remove xs ys e c h d = rw e (
    rw (
      keep_rest-kept (build_mapping remove 0 0 (xs ++ ys)) remove 0 0 xs ys h d c
        (λ j l. build_mapping-kept remove 0 0 xs ys h j (omega arith) ∙ ap some (omega arith))))
