-- ===== src/Ir/Minimizers/Block/Flags.antt =====
-- The flags with which `BlockMinimizer` of crates/stratamoto-ir/src/minimizers/block.rs removes a block,
-- and that it finds every block.
use stratamoto.Base.{
  ℕ, zero, suc, ◌+◌, ◌-◌, ◌==◌, ◌≤◌, ◌<◌, ◌≡◌, ◌↔◌, refl, ap, sym, ◌∙◌, subst, Bool, true, false,
  List, [], ◌∷◌, ◌++◌, length, get_elem?, some, arith, ltb, leb, ◌&&◌,
}
use stratamoto.Ir.Operation.{Operation, is_block_begin, is_block_end}
use stratamoto.Ir.Instruction.{Instruction, Program}
use stratamoto.Ir.Minimizers.{mark, mark_from}
use stratamoto.Ir.Minimizers.Block.{skip, matching_from, matching_end}
use stratamoto.Ir.Minimizers.Block.Delimiters.{
  Closes, closes_setup, closes_on_success, is_block_begin-Opens, is_block_end-Closes, Opens-not-end,
}
use stratamoto.Ir.Minimizers.Block.Matching.{Inside, finished, opened, closed, plain, IsBlock}

-- The flags of the instructions from an index up to another.
pub record Flags (begin end total : ℕ) (flags : List Bool) : Type 0 where
  pub total_flags : length flags ≡ total
  pub flagged :
      (k : ℕ) (b : Bool) → get_elem? flags k ≡ some b → (b ≡ true) ↔ ((begin ≤ k) × (k ≤ end))

mark_from-flagged :
    (index begin end n k : ℕ) (b : Bool)
    → get_elem? (mark_from index begin end n) k ≡ some b
    → (b ≡ true) ↔ ((begin ≤ index + k) × (index + k < end))
mark_from-flagged index begin end zero k b h = cc
mark_from-flagged index begin end (suc n) zero b h =
    let same : leb begin index && ltb index end ≡ b = cc in (λ t. grind arith, λ t. grind arith)
mark_from-flagged index begin end (suc n) (suc k) b h =
    let (there, back) = mark_from-flagged (index + 1) begin end n k b h in
    (λ t. let x = there t in (omega arith, omega arith), λ t. back (omega arith, omega arith))

length-mark_from : (index begin end n : ℕ) → length (mark_from index begin end n) ≡ n
length-mark_from index begin end zero = refl
length-mark_from index begin end (suc n) = ap suc (length-mark_from (index + 1) begin end n)

pub mark-Flags : (begin end total : ℕ) → Flags begin end total (mark begin (end + 1) total)
unfolding mark
mark-Flags begin end total = record {
  total_flags = length-mark_from 0 begin (end + 1) total;
  flagged = λ k b h.
      let (there, back) = mark_from-flagged 0 begin (end + 1) total k b h in
      (λ t. let x = there t in (omega arith, omega arith), λ t. back (omega arith, omega arith));
}

Closes-not-begin : (op : Operation) → Closes op → is_block_begin op ≡ false
unfolding is_block_begin
Closes-not-begin _ (closes_setup p) = refl
Closes-not-begin _ closes_on_success = refl

not-true : (b : Bool) → ¬ (b ≡ true) → b ≡ false
not-true true h = absurd (h refl)
not-true false h = refl

-- The search finds the end after what is inside a block.
Inside-matching_from :
    (index depth : ℕ) (body : List Instruction) (closing : Instruction) (after : List Instruction)
    → Inside depth body
    → Closes closing.operation
    → matching_from index (suc depth) (body ++ (closing ∷ after)) ≡ some (index + length body)
unfolding matching_from
Inside-matching_from index _ _ closing after finished c =
    let begins = Closes-not-begin closing.operation c in
    let ends = (is_block_end-Closes closing.operation).1 c in
    let one : 1 - 1 ≡ 0 = omega arith in
    let same : index ≡ index + 0 = omega arith in
    rw (begins, matching_from, ends, one) (ap some same)
Inside-matching_from index _ _ closing after (opened {depth} {is} i o more) c =
    let begins = (is_block_begin-Opens i.operation).1 o in
    let ends = Opens-not-end i.operation o in
    let deeper : suc depth + 1 ≡ suc (suc depth) = omega arith in
    let rest = Inside-matching_from (index + 1) (suc depth) is closing after more c in
    let same : index + 1 + length is ≡ index + suc (length is) = omega arith in
    rw (begins, matching_from, ends, deeper) (rest ∙ ap some same)
Inside-matching_from index _ _ closing after (closed {depth} {is} i o more) c =
    let begins = Closes-not-begin i.operation o in
    let ends = (is_block_end-Closes i.operation).1 o in
    let left : suc (suc depth) - 1 ≡ suc depth = omega arith in
    let going : (suc depth == 0) ≡ false = grind arith in
    let rest = Inside-matching_from (index + 1) depth is closing after more c in
    let same : index + 1 + length is ≡ index + suc (length is) = omega arith in
    rw (begins, matching_from, ends, left, going) (rest ∙ ap some same)
Inside-matching_from index _ _ closing after (plain {depth} {is} i o e more) c =
    let begins =
      not-true (is_block_begin i.operation) (λ t. o ((is_block_begin-Opens i.operation).0 t)) in
    let ends =
      not-true (is_block_end i.operation) (λ t. e ((is_block_end-Closes i.operation).0 t)) in
    let rest = Inside-matching_from (index + 1) depth is closing after more c in
    let same : index + 1 + length is ≡ index + suc (length is) = omega arith in
    rw (begins, matching_from, ends) (rest ∙ ap some same)

skip-append : (xs ys : List Instruction) → skip (length xs) (xs ++ ys) ≡ ys
unfolding skip
skip-append [] ys = refl
skip-append (x ∷ xs) ys = skip-append xs ys

get_elem?-middle :
    (xs : List Instruction) (i : Instruction) (ys : List Instruction)
    → get_elem? (xs ++ (i ∷ ys)) (length xs) ≡ some i
get_elem?-middle [] i ys = refl
get_elem?-middle (x ∷ xs) i ys = get_elem?-middle xs i ys

-- What the minimizer sees of a block: its beginning and its matching end.
pub record Found (p : Program) (begin end : ℕ) : Type 0 where
  pub opening : Instruction
  pub found : get_elem? p.instructions begin ≡ some opening
  pub begins : is_block_begin opening.operation ≡ true
  pub ends : matching_end p begin ≡ some end

pub IsBlock-Found : (p : Program) (begin end : ℕ) → IsBlock p begin end → Found p begin end
unfolding matching_end matching_from
IsBlock-Found p begin end b =
    let rest = b.body ++ (b.closing ∷ b.after) in
    let begins = (is_block_begin-Opens b.opening.operation).1 b.opens in
    let no_end = Opens-not-end b.opening.operation b.opens in
    let place = sym b.begins_at in
    let at : get_elem? p.instructions begin ≡ some b.opening =
      ap (λ xs. get_elem? xs begin) b.split
      ∙ subst (λ n. get_elem? (b.before ++ (b.opening ∷ rest)) n ≡ some b.opening) place
          (get_elem?-middle b.before b.opening rest) in
    let skipped : skip begin p.instructions ≡ b.opening ∷ rest =
      ap (skip begin) b.split
      ∙ subst (λ n. skip n (b.before ++ (b.opening ∷ rest)) ≡ b.opening ∷ rest) place
          (skip-append b.before (b.opening ∷ rest)) in
    let one : 0 + 1 ≡ 1 = omega arith in
    let inner = Inside-matching_from (begin + 1) 0 b.body b.closing b.after b.inside b.closes in
    let same : begin + 1 + length b.body ≡ end = sym b.ends_at in
    record {
      opening = b.opening;
      found = at;
      begins = begins;
      ends = rw (skipped, matching_end, begins, no_end, one) (inner ∙ ap some same);
    }
