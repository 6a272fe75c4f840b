-- ===== src/Ir/Minimizers/Block/Matching.antt =====
-- What the end of a block is for `BlockMinimizer` of crates/stratamoto-ir/src/minimizers/block.rs.
use stratamoto.Base.{
  ℕ, zero, suc, ◌+◌, ◌-◌, ◌==◌, ◌≡◌, refl, ap, ◌∙◌, Bool, true, false, List, [], ◌∷◌, ◌++◌, length,
  get_elem?, some, inl, inr, Bool-cases, arith,
}
use stratamoto.Ir.Operation.{is_block_begin, is_block_end}
use stratamoto.Ir.Instruction.{Instruction, Program}
use stratamoto.Ir.Minimizers.Block.Delimiters.{
  Opens, Closes, is_block_begin-Opens, is_block_end-Closes, Opens-not-end,
}
use stratamoto.Ir.Minimizers.Block.{skip, matching_from, matching_end}

-- Instructions that close the open blocks, as many as the number says, and those that they open, and no
-- other.
pub data Inside : ℕ → List Instruction → Type 0 where
  finished : Inside 0 []
  opened :
      {depth : ℕ} {is : List Instruction} (i : Instruction)
      → Opens i.operation
      → Inside (suc depth) is
      → Inside depth (i ∷ is)
  closed :
      {depth : ℕ} {is : List Instruction} (i : Instruction)
      → Closes i.operation
      → Inside depth is
      → Inside (suc depth) (i ∷ is)
  plain :
      {depth : ℕ} {is : List Instruction} (i : Instruction)
      → ¬ (Opens i.operation)
      → ¬ (Closes i.operation)
      → Inside depth is
      → Inside depth (i ∷ is)

-- Where the search from an index on ends, with so many blocks open besides the one that it closes.
pub record Closed (index depth : ℕ) (is : List Instruction) (end : ℕ) : Type 0 where
  pub body : List Instruction
  pub closing : Instruction
  pub after : List Instruction
  pub split : is ≡ body ++ (closing ∷ after)
  pub at : end ≡ index + length body
  pub inside : Inside depth body
  pub closes : Closes closing.operation

-- What the search does at an end.
at_end :
    (index depth : ℕ) (i : Instruction) (is : List Instruction) (end : ℕ)
    → is_block_begin i.operation ≡ false
    → is_block_end i.operation ≡ true
    → matching_from index (suc depth) (i ∷ is) ≡ some end
    → ((d : ℕ) → matching_from (index + 1) (suc d) is ≡ some end → Closed (index + 1) d is end)
    → Closed index depth (i ∷ is) end
unfolding matching_from
at_end index zero i is end b e h later =
    let found = (rw (b, matching_from, e) at h) in
    let here : index ≡ end = cc in
    record {
      body = [];
      closing = i;
      after = is;
      split = refl;
      at = omega arith;
      inside = finished;
      closes = (is_block_end-Closes i.operation).0 e;
    }
at_end index (suc depth) i is end b e h later =
    let left : suc (suc depth) - 1 ≡ suc depth = omega arith in
    let going : (suc depth == 0) ≡ false = grind arith in
    let c = later depth (rw (b, matching_from, e, left, going) at h) in
    record {
      body = i ∷ c.body;
      closing = c.closing;
      after = c.after;
      split = ap (λ xs. i ∷ xs) c.split;
      at = (let k = c.at in omega arith);
      inside = closed i ((is_block_end-Closes i.operation).0 e) c.inside;
      closes = c.closes;
    }

-- What it does before one.
before_end :
    (index depth : ℕ) (i : Instruction) (is : List Instruction) (end : ℕ) (b : Bool)
    → is_block_begin i.operation ≡ b
    → is_block_end i.operation ≡ false
    → matching_from index (suc depth) (i ∷ is) ≡ some end
    → ((d : ℕ) → matching_from (index + 1) (suc d) is ≡ some end → Closed (index + 1) d is end)
    → Closed index depth (i ∷ is) end
unfolding matching_from
before_end index depth i is end true b e h later =
    let more : suc depth + 1 ≡ suc (suc depth) = omega arith in
    let c = later (suc depth) (rw (b, matching_from, e, more) at h) in
    record {
      body = i ∷ c.body;
      closing = c.closing;
      after = c.after;
      split = ap (λ xs. i ∷ xs) c.split;
      at = (let k = c.at in omega arith);
      inside = opened i ((is_block_begin-Opens i.operation).0 b) c.inside;
      closes = c.closes;
    }
before_end index depth i is end false b e h later =
    let c = later depth (rw (b, matching_from, e) at h) in
    record {
      body = i ∷ c.body;
      closing = c.closing;
      after = c.after;
      split = ap (λ xs. i ∷ xs) c.split;
      at = (let k = c.at in omega arith);
      inside =
          plain i (λ o. let yes = (is_block_begin-Opens i.operation).1 o in cc)
            (λ o. let yes = (is_block_end-Closes i.operation).1 o in cc) c.inside;
      closes = c.closes;
    }

matching_from-Closed :
    (index depth : ℕ) (is : List Instruction) (end : ℕ)
    → matching_from index (suc depth) is ≡ some end
    → Closed index depth is end
unfolding matching_from
matching_from-Closed index depth [] end h = cc
matching_from-Closed index depth (i ∷ is) end h = elim (Bool-cases (is_block_end i.operation)) [
  | inr e ↦
      before_end index depth i is end _ refl e h
        (λ d g. matching_from-Closed (index + 1) d is end g)
  | inl e ↦ elim (Bool-cases (is_block_begin i.operation)) [
    | inl b ↦
        let no = Opens-not-end i.operation ((is_block_begin-Opens i.operation).0 b) in
        absurd (let clash : false ≡ true = cc in cc)
    | inr b ↦ at_end index depth i is end b e h (λ d g. matching_from-Closed (index + 1) d is end g)
  ]
]

-- Where an instruction stands in a list.
pub record Stands (k : ℕ) (is : List Instruction) (i : Instruction) : Type 0 where
  pub before : List Instruction
  pub after : List Instruction
  pub split : is ≡ before ++ (i ∷ after)
  pub counted : length before ≡ k
  pub skipped : skip k is ≡ i ∷ after

get_elem?-Stands :
    (k : ℕ) (is : List Instruction) (i : Instruction) → get_elem? is k ≡ some i → Stands k is i
unfolding skip
get_elem?-Stands k [] i h = cc
get_elem?-Stands zero (x ∷ is) i h =
    let same : x ≡ i = cc in
    record {
      before = [];
      after = is;
      split = ap (λ y. y ∷ is) same;
      counted = refl;
      skipped = ap (λ y. y ∷ is) same;
    }
get_elem?-Stands (suc k) (x ∷ is) i h =
    let s = get_elem?-Stands k is i h in
    record {
      before = x ∷ s.before;
      after = s.after;
      split = ap (λ xs. x ∷ xs) s.split;
      counted = ap suc s.counted;
      skipped = s.skipped;
    }

-- A block of a program, from an index to another: what opens it, its instructions, which close just the
-- blocks that they open, and what closes it.
pub record IsBlock (p : Program) (begin end : ℕ) : Type 0 where
  pub before : List Instruction
  pub opening : Instruction
  pub body : List Instruction
  pub closing : Instruction
  pub after : List Instruction
  pub split : p.instructions ≡ before ++ (opening ∷ (body ++ (closing ∷ after)))
  pub opens : Opens opening.operation
  pub inside : Inside 0 body
  pub closes : Closes closing.operation
  pub begins_at : begin ≡ length before
  pub ends_at : end ≡ begin + 1 + length body

-- An instruction that opens a block and the matching end delimit one.
pub matching_end-IsBlock :
    (p : Program) (begin end : ℕ) (i : Instruction)
    → get_elem? p.instructions begin ≡ some i
    → is_block_begin i.operation ≡ true
    → matching_end p begin ≡ some end
    → IsBlock p begin end
unfolding matching_end matching_from
matching_end-IsBlock p begin end i at b h =
    let opens = (is_block_begin-Opens i.operation).0 b in
    let no_end = Opens-not-end i.operation opens in
    let s = get_elem?-Stands begin p.instructions i at in
    let one : 0 + 1 ≡ 1 = omega arith in
    let c =
      matching_from-Closed (begin + 1) 0 s.after end
        (rw (s.skipped, matching_end, b, no_end, one) at h) in
    record {
      before = s.before;
      opening = i;
      body = c.body;
      closing = c.closing;
      after = c.after;
      split = s.split ∙ ap (λ xs. s.before ++ (i ∷ xs)) c.split;
      opens = opens;
      inside = c.inside;
      closes = c.closes;
      begins_at = (let k = s.counted in omega arith);
      ends_at = (let k = c.at in omega arith);
    }
