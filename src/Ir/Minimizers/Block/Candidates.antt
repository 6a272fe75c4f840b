-- ===== src/Ir/Minimizers/Block/Candidates.antt =====
-- What `BlockMinimizer` of crates/stratamoto-ir/src/minimizers/block.rs proposes.
use stratamoto.Base.{
  ℕ, zero, suc, ◌+◌, ◌≤◌, ◌≡◌, ◌++◌, refl, ap, sym, subst, false, ◌==◌, ==_iff, ◌∙◌, Bool, true,
  List, length, get_elem?, get_elem?-lt-length, none, some, inl, inr, Bool-cases, Option-cases,
  arith,
}
use stratamoto.Ir.Operation.{is_block_begin}
use stratamoto.Ir.Instruction.{Instruction, Program}
use stratamoto.Ir.Builder.{is_statically_valid}
use stratamoto.Ir.Renumber.{without}
use stratamoto.Ir.Minimizers.{Next, yielded, exhausted, panicked, out_of_fuel, mark, try_without}
use stratamoto.Ir.Minimizers.Block.{BlockMinimizer, matching_end, drop_block, next_within, next}
use stratamoto.Ir.Minimizers.Block.Matching.{IsBlock, matching_end-IsBlock}
use stratamoto.Ir.Minimizers.Block.Dropped.{operations, without-block}
use stratamoto.Ir.Minimizers.Block.Flags.{Flags, mark-Flags, IsBlock-Found}
use stratamoto.Ir.Minimizers.Nopping.Candidates.{get_elem?-eq-none}

-- A proposal: the program without a block at or after the minimizer's place, and statically valid.
pub record Drops (m : BlockMinimizer) (c : Program) (m' : BlockMinimizer) : Type 0 where
  pub begin : ℕ
  pub end : ℕ
  pub not_before : m.next_index ≤ begin
  pub block : IsBlock m.program begin end
  pub flags : List Bool
  pub flagged : Flags begin end (length m.program.instructions) flags
  pub proposal : without flags m.program ≡ some c
  pub operations_left : operations c.instructions ≡ operations (block.before ++ block.after)
  pub valid : is_statically_valid c ≡ some true
  pub state : m' ≡ record m { candidate = some c; next_index = begin }

-- The candidate without a block panicked.
pub record Panics (m : BlockMinimizer) : Type 0 where
  pub begin : ℕ
  pub end : ℕ
  pub not_before : m.next_index ≤ begin
  pub block : IsBlock m.program begin end
  pub flags : List Bool
  pub flagged : Flags begin end (length m.program.instructions) flags
  pub no_candidate : try_without flags m.program ≡ none

-- The candidate without a block was made and is not statically valid.
pub record Refuses (p : Program) (begin end : ℕ) : Type 0 where
  pub flags : List Bool
  pub flagged : Flags begin end (length p.instructions) flags
  pub candidate : Program
  pub made : without flags p ≡ some candidate
  pub not_valid : is_statically_valid candidate ≡ some false

-- No block at or after the minimizer's place can be dropped.
abbrev pub NoneLeft : BlockMinimizer → Type 0
NoneLeft m =
    (begin end : ℕ)
    → m.next_index ≤ begin
    → IsBlock m.program begin end
    → Refuses m.program begin end

-- What `next` may give: a proposal, the end, where nothing is left, or the panic of a candidate.
abbrev pub Given : BlockMinimizer → Next BlockMinimizer → Type 0
Given m (yielded c m') = Drops m c m'
Given m (exhausted m') =
    (m'.program ≡ m.program) × ((length m.program.instructions ≤ m'.next_index) × NoneLeft m)
Given m panicked = Panics m
Given m out_of_fuel = ⊥

-- No block that begins at the minimizer's place can be dropped.
abbrev RefusesHere : BlockMinimizer → Type 0
RefusesHere m = (end : ℕ) → IsBlock m.program m.next_index end → Refuses m.program m.next_index end

NoneLeft-later :
    (m : BlockMinimizer)
    → RefusesHere m
    → NoneLeft (record m { next_index = m.next_index + 1 })
    → NoneLeft m
NoneLeft-later m here rest begin end b block = elim (Bool-cases (begin == m.next_index)) [
  | inl e ↦
      let same = sym ((==_iff begin m.next_index).0 e) in
      subst (λ n. IsBlock m.program n end → Refuses m.program n end) same (here end) block
  | inr e ↦ rest begin end (grind arith) block
]

Given-later :
    (m : BlockMinimizer) (r : Next BlockMinimizer)
    → RefusesHere m
    → Given (record m { next_index = m.next_index + 1 }) r
    → Given m r
Given-later m (yielded c m') here g = record {
  begin = g.begin;
  end = g.end;
  not_before = (let b = g.not_before in omega arith);
  block = g.block;
  flags = g.flags;
  flagged = g.flagged;
  proposal = g.proposal;
  operations_left = g.operations_left;
  valid = g.valid;
  state = g.state;
}
Given-later m (exhausted m') here (same, (past, rest)) = (same, (past, NoneLeft-later m here rest))
Given-later m panicked here g = record {
  begin = g.begin;
  end = g.end;
  not_before = (let b = g.not_before in omega arith);
  block = g.block;
  flags = g.flags;
  flagged = g.flagged;
  no_candidate = g.no_candidate;
}
Given-later m out_of_fuel here g = g

-- Past the last instruction no block is left.
at_end :
    (m : BlockMinimizer)
    → get_elem? m.program.instructions m.next_index ≡ none
    → (length m.program.instructions ≤ m.next_index) × NoneLeft m
at_end m e =
    let past = get_elem?-eq-none m.program.instructions m.next_index e in
    (
      past,
      λ begin end b block.
          let f = IsBlock-Found m.program begin end block in
          let inside = get_elem?-lt-length m.program.instructions begin f.found in
          absurd (omega arith),
    )

-- An instruction that opens no block.
no_opening :
    (m : BlockMinimizer) (i : Instruction)
    → get_elem? m.program.instructions m.next_index ≡ some i
    → is_block_begin i.operation ≡ false
    → RefusesHere m
no_opening m i e s end block =
    let f = IsBlock-Found m.program m.next_index end block in
    let found = f.found in
    let same : f.opening ≡ i = cc in
    let begins = f.begins in
    let same_begin = ap (λ (x : Instruction). is_block_begin x.operation) same in
    absurd (let no : true ≡ false = sym begins ∙ (same_begin ∙ s) in cc)

no_end : (m : BlockMinimizer) → matching_end m.program m.next_index ≡ none → RefusesHere m
no_end m n end block =
    let f = IsBlock-Found m.program m.next_index end block in
    let ends = f.ends in absurd (let no : none ≡ some end = sym n ∙ ends in cc)

not_valid :
    (m : BlockMinimizer) (c : Program) (end : ℕ)
    → matching_end m.program m.next_index ≡ some end
    → without (mark m.next_index (end + 1) (length m.program.instructions)) m.program ≡ some c
    → is_statically_valid c ≡ some false
    → RefusesHere m
not_valid m c end n w v end' block =
    let f = IsBlock-Found m.program m.next_index end' block in
    let ends = f.ends in
    let same : end ≡ end' = cc in
    subst (Refuses m.program m.next_index) same (record {
      flags = mark m.next_index (end + 1) (length m.program.instructions);
      flagged = mark-Flags m.next_index end (length m.program.instructions);
      candidate = c;
      made = w;
      not_valid = v;
    })

try_without-eq :
    (remove : List Bool) (p c : Program) (v : Bool)
    → try_without remove p ≡ some (c, v)
    → (without remove p ≡ some c) × (is_statically_valid c ≡ some v)
unfolding try_without
try_without-eq remove p c v e = elim (Option-cases (without remove p)) [
  | inl n ↦ absurd (let e' = rw (n, try_without) at e in cc)
  | inr (q, s) ↦ elim (Option-cases (is_statically_valid q)) [
    | inl n ↦ absurd (let e' = rw (s, try_without, n) at e in cc)
    | inr (u, t) ↦
        let e' = rw (s, try_without, t) at e in
        let same : q ≡ c = cc in
        let same' : u ≡ v = cc in
        (s ∙ ap some same, ap is_statically_valid (sym same) ∙ (t ∙ ap some same'))
  ]
]

at_block :
    (fuel : ℕ) (m : BlockMinimizer) (i : Instruction) (end : ℕ)
    → get_elem? m.program.instructions m.next_index ≡ some i
    → is_block_begin i.operation ≡ true
    → matching_end m.program m.next_index ≡ some end
    → IsBlock m.program m.next_index end
    → Given
        (record m { next_index = m.next_index + 1 })
        (next_within fuel (record m { next_index = m.next_index + 1 }))
    → Given m (next_within (suc fuel) m)
unfolding next_within drop_block
at_block fuel m i end e s n block given =
    elim (Option-cases (drop_block m.next_index end m.program)) [
      | inl d ↦
          rw (e, next_within, s, n, d)
            (record {
              begin = m.next_index;
              end = end;
              not_before = omega arith;
              block = block;
              flags = mark m.next_index (end + 1) (length m.program.instructions);
              flagged = mark-Flags m.next_index end (length m.program.instructions);
              no_candidate = d;
            })
      | inr ((c, v), d) ↦
          let (w, valid) = try_without-eq _ m.program c v d in
          elim (Bool-cases v) [
            | inl t ↦
                rw (e, next_within, s, n, d, t)
                  (record {
                    begin = m.next_index;
                    end = end;
                    not_before = omega arith;
                    block = block;
                    flags = mark m.next_index (end + 1) (length m.program.instructions);
                    flagged = mark-Flags m.next_index end (length m.program.instructions);
                    proposal = w;
                    operations_left =
                        without-block m.program c m.next_index end
                          (mark m.next_index (end + 1) (length m.program.instructions)) block
                          (mark-Flags m.next_index end (length m.program.instructions)) w;
                    valid = valid ∙ ap some t;
                    state = refl;
                  })
            | inr t ↦
                let rest = Given-later m _ (not_valid m c end n w (valid ∙ ap some t)) given in
                rw (e, next_within, s, n, d, t) rest
          ]
    ]

next_within-Given :
    (fuel : ℕ) (m : BlockMinimizer)
    → length m.program.instructions ≤ m.next_index + fuel
    → Given m (next_within fuel m)
unfolding next_within
next_within-Given zero m f = elim (Option-cases (get_elem? m.program.instructions m.next_index)) [
  | inl e ↦ let ended = at_end m e in rw (e, next_within) (refl, ended)
  | inr (i, e) ↦
      absurd (let b = get_elem?-lt-length m.program.instructions m.next_index e in omega arith)
]
next_within-Given (suc fuel) m f =
    elim (Option-cases (get_elem? m.program.instructions m.next_index)) [
      | inl e ↦ let ended = at_end m e in rw (e, next_within) (refl, ended)
      | inr (i, e) ↦
          let given =
            next_within-Given fuel (record m { next_index = m.next_index + 1 }) (omega arith) in
          elim (Bool-cases (is_block_begin i.operation)) [
            | inr s ↦
                let rest = Given-later m _ (no_opening m i e s) given in rw (e, next_within, s) rest
            | inl s ↦ elim (Option-cases (matching_end m.program m.next_index)) [
              | inl n ↦
                  let rest = Given-later m _ (no_end m n) given in rw (e, next_within, s, n) rest
              | inr (end, n) ↦
                  let block = matching_end-IsBlock m.program m.next_index end i e s n in
                  at_block fuel m i end e s n block given
            ]
          ]
    ]

-- `next` proposes the program without a block at or after its place, whose instructions between the
-- beginning and the end close just the blocks that they open: the operations before it and after it
-- are left; the proposal is statically valid, and both are remembered; or it ends past the last
-- instruction with the same program, where no such proposal is left; or such a candidate panicked.
-- Its fuel is enough.
pub next-Drops : (m : BlockMinimizer) → Given m (next m)
unfolding next
next-Drops m = next_within-Given (length m.program.instructions) m (omega arith)
