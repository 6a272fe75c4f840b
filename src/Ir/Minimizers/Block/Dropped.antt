-- ===== src/Ir/Minimizers/Block/Dropped.antt =====
-- What is left of a program when `BlockMinimizer` of crates/stratamoto-ir/src/minimizers/block.rs drops a
-- block of it.
use stratamoto.Base.{
  ℕ, suc, ◌+◌, ◌≤◌, ◌<◌, ◌≡◌, refl, ap, sym, ◌∙◌, subst, Bool, true, false, List, [], ◌∷◌, ◌++◌,
  length, get_elem?, get_elem?-exists, Option, some, none, arith, append_assoc, append-nil,
  length-append,
}
use stratamoto.Base.Options.{>>=-eq-some}
use stratamoto.Ir.Operation.{Operation}
use stratamoto.Ir.Instruction.{Instruction, Program}
use stratamoto.Ir.Renumber.{dropped, renumber, renumber_inputs, keep_rest, build_mapping, without}
use stratamoto.Ir.Renumber.Cut.{KeepsFirst, DropsNext, KeepsFirst-tail, DropsNext-tail}
use stratamoto.Ir.Minimizers.Block.Matching.{IsBlock}
use stratamoto.Ir.Minimizers.Block.Flags.{Flags}

-- the operations of instructions
abbrev pub operations : List Instruction → List Operation
operations [] = []
operations (i ∷ is) = i.operation ∷ operations is

operations-append :
    (xs ys : List Instruction) → operations (xs ++ ys) ≡ operations xs ++ operations ys
operations-append [] ys = refl
operations-append (x ∷ xs) ys = ap (λ os. x.operation ∷ os) (operations-append xs ys)

renumber-operation :
    (mapping : List ℕ) (i j : Instruction) → renumber mapping i ≡ some j → j.operation ≡ i.operation
unfolding renumber
renumber-operation mapping i j h =
    let (inputs, _, same) =
      >>=-eq-some (renumber_inputs mapping i.inputs) (λ inputs. some (record i { inputs = inputs }))
        h in
    let e : record i { inputs = inputs } ≡ j = cc in sym (ap (λ (x : Instruction). x.operation) e)

first_flag :
    (remove : List Bool) (index : ℕ) (b : Bool)
    → dropped remove (index + 0) ≡ b
    → dropped remove index ≡ b
first_flag remove index b h =
    subst (λ m. dropped remove m ≡ b) (let q : index + 0 ≡ index = omega arith in q) h

-- What comes of instructions that are kept, and of those after them.
record Keeps (mapping : List ℕ) (remove : List Bool) (index : ℕ) (xs ys out : List Instruction)
    : Type 0 where
  tail : List Instruction
  same : operations out ≡ operations xs ++ operations tail
  rest : keep_rest mapping remove (index + length xs) ys ≡ some tail

keep_rest-Keeps :
    (mapping : List ℕ) (remove : List Bool) (index : ℕ) (xs ys out : List Instruction)
    → KeepsFirst remove index (length xs)
    → keep_rest mapping remove index (xs ++ ys) ≡ some out
    → Keeps mapping remove index xs ys out
unfolding keep_rest
keep_rest-Keeps mapping remove index [] ys out k h = record {
  tail = out;
  same = refl;
  rest =
      subst (λ n. keep_rest mapping remove n ys ≡ some out)
        (let q : index ≡ index + 0 = omega arith in q) h;
}
keep_rest-Keeps mapping remove index (x ∷ xs) ys out k h =
    let kept = first_flag remove index false (k 0 (omega arith)) in
    let (j, made, h₁) = >>=-eq-some _ _ (rw (kept, keep_rest) at h) in
    let (js, more, h₂) = >>=-eq-some _ _ h₁ in
    let r =
      keep_rest-Keeps mapping remove (index + 1) xs ys js
        (KeepsFirst-tail remove index (length xs) k) more in
    let whole : j ∷ js ≡ out = cc in
    let op = renumber-operation mapping x j made in
    record {
      tail = r.tail;
      same =
          ap operations (sym whole)
          ∙ (ap (λ o. o ∷ operations js) op ∙ ap (λ os. x.operation ∷ os) r.same);
      rest =
          subst (λ n. keep_rest mapping remove n ys ≡ some r.tail)
            (let q : index + 1 + length xs ≡ index + suc (length xs) = omega arith in q) r.rest;
    }

keep_rest-drops :
    (mapping : List ℕ) (remove : List Bool) (index : ℕ) (xs ys out : List Instruction)
    → DropsNext remove index (length xs)
    → keep_rest mapping remove index (xs ++ ys) ≡ some out
    → keep_rest mapping remove (index + length xs) ys ≡ some out
unfolding keep_rest
keep_rest-drops mapping remove index [] ys out d h =
    subst (λ n. keep_rest mapping remove n ys ≡ some out)
      (let q : index ≡ index + 0 = omega arith in q) h
keep_rest-drops mapping remove index (x ∷ xs) ys out d h =
    let gone = first_flag remove index true (d 0 (omega arith)) in
    subst (λ n. keep_rest mapping remove n ys ≡ some out)
      (let q : index + 1 + length xs ≡ index + suc (length xs) = omega arith in q)
      (keep_rest-drops mapping remove (index + 1) xs ys out
        (DropsNext-tail remove index (length xs) d) (rw (gone, keep_rest) at h))

-- the flag of an index outside of the block, and of one in it
outside_flag :
    (begin end total : ℕ) (flags : List Bool) (k : ℕ) (o : Option Bool)
    → Flags begin end total flags
    → get_elem? flags k ≡ o
    → ¬ ((begin ≤ k) × (k ≤ end))
    → dropped flags k ≡ false
unfolding dropped
outside_flag begin end total flags k none f e n = rw (e, dropped) refl
outside_flag begin end total flags k (some false) f e n = rw (e, dropped) refl
outside_flag begin end total flags k (some true) f e n = absurd (n ((f.flagged k true e).0 refl))

inside_flag :
    (begin end total : ℕ) (flags : List Bool) (k : ℕ)
    → Flags begin end total flags
    → k < total
    → begin ≤ k
    → k ≤ end
    → dropped flags k ≡ true
unfolding dropped
inside_flag begin end total flags k f lt b e =
    let counted = f.total_flags in
    let (flag, at) = get_elem?-exists flags k (omega arith) in
    rw (at, dropped) ((f.flagged k flag at).1 (b, e))

-- The instructions after a block are the last ones.
keep_rest-after :
    (mapping : List ℕ) (remove : List Bool) (index : ℕ) (xs out : List Instruction)
    → KeepsFirst remove index (length xs)
    → keep_rest mapping remove index xs ≡ some out
    → operations out ≡ operations xs
unfolding keep_rest
keep_rest-after mapping remove index xs out k h =
    let r =
      keep_rest-Keeps mapping remove index xs [] out k
        (subst (λ zs. keep_rest mapping remove index zs ≡ some out) (sym (append-nil xs)) h) in
    let last = r.rest in
    let nothing : [] ≡ r.tail = cc in
    r.same ∙ (ap (λ t. operations xs ++ operations t) (sym nothing) ∙ append-nil (operations xs))

without-instructions :
    (flags : List Bool) (p c : Program)
    → without flags p ≡ some c
    → keep_rest (build_mapping flags 0 0 p.instructions) flags 0 p.instructions
      ≡ some c.instructions
unfolding without
without-instructions flags p c h =
    let (is, made, same) = >>=-eq-some _ _ h in
    let e : record { context = p.context; instructions = is } ≡ c = cc in
    made ∙ ap some (ap (λ (q : Program). q.instructions) e)

-- What is left without a block: the operations before it and those after it.
pub without-block :
    (p c : Program) (begin end : ℕ) (flags : List Bool) (b : IsBlock p begin end)
    → Flags begin end (length p.instructions) flags
    → without flags p ≡ some c
    → operations c.instructions ≡ operations (b.before ++ b.after)
without-block p c begin end flags b f h =
    let mapping = build_mapping flags 0 0 p.instructions in
    let block = b.opening ∷ (b.body ++ (b.closing ∷ [])) in
    let split : p.instructions ≡ b.before ++ (block ++ b.after) =
      b.split
      ∙ ap (λ zs. b.before ++ (b.opening ∷ zs))
          (sym (append_assoc b.body (b.closing ∷ []) b.after)) in
    let starts = b.begins_at in
    let ends = b.ends_at in
    let size = length-append b.body (b.closing ∷ []) in
    let total = ap length split in
    let total₁ = length-append b.before (block ++ b.after) in
    let total₂ = length-append block b.after in
    let r =
      keep_rest-Keeps mapping flags 0 b.before (block ++ b.after) c.instructions
        (λ k l.
          outside_flag begin end _ flags (0 + k) _ f refl
            (λ w. absurd (let x = w.0 in omega arith)))
        (subst (λ zs. keep_rest mapping flags 0 zs ≡ some c.instructions) split
          (without-instructions flags p c h)) in
    let past =
      keep_rest-drops mapping flags (0 + length b.before) block b.after r.tail
        (λ k l.
          inside_flag begin end _ flags (0 + length b.before + k) f (omega arith) (omega arith)
            (omega arith))
        r.rest in
    let last =
      keep_rest-after mapping flags (0 + length b.before + length block) b.after r.tail
        (λ k l.
          outside_flag begin end _ flags (0 + length b.before + length block + k) _ f refl
            (λ w. absurd (let x = w.1 in omega arith)))
        past in
    r.same ∙ (ap (λ os. operations b.before ++ os) last ∙ sym (operations-append b.before b.after))
