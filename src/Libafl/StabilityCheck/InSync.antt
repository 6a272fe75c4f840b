-- ===== src/Libafl/StabilityCheck/InSync.antt =====
-- What the stage of crates/stratamoto-libafl/src/stages/stability_check.rs keeps of the coverage map.
use stratamoto.Base.{
  ℕ, zero, suc, ◌+◌, ◌-◌, ◌≤◌, ◌<◌, ◌≡◌, ◌≢◌, inl, inr, refl, ap, subst, Bool, true, false, not,
  ◌&&◌, List, [], ◌∷◌, ◌++◌, length, replicate, get_elem?, get_elem?-append_left, Option, none,
  some, ltb, ◌==◌, Bool-cases, All, All-append, All-imp, Result, ok, err, arith,
}
use stratamoto.Libafl.StabilityCheck.{
  MapState, ExitKind, StageError, failed, Fuzzer, Compared, count_filled, compare_entry,
  compare_from, lengthen, compare, is_timeout, is_empty, more_iterations, cal_stage_max, calibrate,
}

-- The number of covered entries is that of the history's entries that are not zero.
abbrev pub InSync : MapState → Type 0
InSync m = m.num_covered_map_indexes ≡ count_filled m.history_map

-- An index is flagged as unstable in a history.
abbrev pub Flagged : ℕ → List ℕ → ℕ → Type 0
Flagged top history i = get_elem? history i ≡ some top

count_filled-append : (xs ys : List ℕ) → count_filled (xs ++ ys) ≡ count_filled xs + count_filled ys
count_filled-append [] ys = omega arith
count_filled-append (x ∷ xs) ys = let rest = count_filled-append xs ys in omega arith

count_filled-zeros : (n : ℕ) → count_filled (replicate n 0) ≡ 0
count_filled-zeros zero = refl
count_filled-zeros (suc n) = let rest = count_filled-zeros n in omega arith

-- What a comparison from an index on does to a history.
pub record Comparison (top idx : ℕ) (history : List ℕ) (c : Compared) : Type 0 where
  pub counted : count_filled c.history ≡ count_filled history + c.covered
  pub kept : (k : ℕ) → Flagged top history k → Flagged top c.history k
  pub flagged : All (λ i. (k : ℕ) × (i ≡ idx + k) × Flagged top c.history k) c.unstable

kept_cons :
    (top entry x : ℕ) (old new : List ℕ)
    → (entry ≡ top → x ≡ top)
    → ((k : ℕ) → Flagged top old k → Flagged top new k)
    → (k : ℕ) → Flagged top (entry ∷ old) k
    → Flagged top (x ∷ new) k
kept_cons top entry x old new f h zero e = ap some (f (let same : entry ≡ top = cc in same))
kept_cons top entry x old new f h (suc k) e = h k e

-- Where an index is flagged in what follows it is flagged in the whole.
abbrev FlaggedFrom : ℕ → ℕ → List ℕ → ℕ → Type 0
FlaggedFrom top idx history i = (k : ℕ) × (i ≡ idx + k) × Flagged top history k

shifted :
    (top idx x : ℕ) (history us : List ℕ)
    → All (FlaggedFrom top (suc idx) history) us
    → All (FlaggedFrom top idx (x ∷ history)) us
shifted top idx x history us h =
    All-imp (FlaggedFrom top (suc idx) history) (FlaggedFrom top idx (x ∷ history)) us
      (λ i f. let (k, at, flag) = f in (suc k, omega arith, flag)) h

entry-Comparison :
    (top idx first cur entry : ℕ) (history : List ℕ) (later : Compared)
    → top ≢ 0
    → Comparison top (suc idx) history later
    → (b : Bool) → (not (first == cur) && not (entry == top)) ≡ b
    → Comparison top idx (entry ∷ history) (compare_entry top idx first cur entry later)
unfolding compare_entry
entry-Comparison top idx first cur entry history later n h true e =
    let counted = h.counted in
    rw e (record {
      counted = ground arith;
      kept = kept_cons top entry top history later.history (λ _. refl) h.kept;
      flagged =
          ((0, omega arith, refl), shifted top idx top later.history later.unstable h.flagged);
    })
entry-Comparison top idx first cur entry history later n h false e =
    let counted = h.counted in
    rw e (record {
      counted = omega arith;
      kept = kept_cons top entry entry history later.history (λ same. same) h.kept;
      flagged = shifted top idx entry later.history later.unstable h.flagged;
    })

unchanged :
    (top idx : ℕ) (history : List ℕ)
    → Comparison top idx history (record { history = history; covered = 0; unstable = [] })
unchanged top idx history = record { counted = omega arith; kept = λ k f. f; flagged = tt }

compare_from-Comparison :
    (top idx : ℕ) (firsts curs history : List ℕ)
    → top ≢ 0
    → Comparison top idx history (compare_from top idx firsts curs history)
unfolding compare_from
compare_from-Comparison top idx (first ∷ firsts) (cur ∷ curs) (entry ∷ history) n =
    entry-Comparison top idx first cur entry history
      (compare_from top (suc idx) firsts curs history) n
      (compare_from-Comparison top (suc idx) firsts curs history n) _ refl
compare_from-Comparison top idx [] curs history n = unchanged top idx history
compare_from-Comparison top idx (first ∷ firsts) [] history n = unchanged top idx history
compare_from-Comparison top idx (first ∷ firsts) (cur ∷ curs) [] n = unchanged top idx []

lengthen_lem :
    (top n : ℕ) (history : List ℕ)
    → (count_filled (lengthen n history) ≡ count_filled history)
      × ((k : ℕ) → Flagged top history k → Flagged top (lengthen n history) k)
unfolding lengthen
lengthen_lem top n history = elim (Bool-cases (ltb (length history) n)) [
  | inl short ↦
      let zeros = replicate (n - length history) 0 in
      let all = count_filled-append history zeros in
      let none_filled = count_filled-zeros (n - length history) in
      let grown : count_filled (history ++ zeros) ≡ count_filled history = omega arith in
      rw short (grown, λ k f. get_elem?-append_left history zeros k f)
  | inr long ↦ rw long (refl, λ k f. f)
]

-- A comparison keeps the count in step with the history, and what is flagged, and flags what it finds.
pub record Marked (top : ℕ) (m m' : MapState) (found : List ℕ) : Type 0 where
  pub in_sync : InSync m'
  pub kept : (k : ℕ) → Flagged top m.history_map k → Flagged top m'.history_map k
  pub flagged : All (Flagged top m'.history_map) found

compare-Marked :
    (top : ℕ) (first map : List ℕ) (m : MapState)
    → top ≢ 0
    → InSync m
    → Marked top m (compare top first map m).0 (compare top first map m).1
unfolding compare
compare-Marked top first map m n sync =
    let longer = lengthen (length first) m.history_map in
    let (same, lengthened) = lengthen_lem top (length first) m.history_map in
    let c = compare_from-Comparison top 0 first map longer n in
    let counted = c.counted in
    let compared = compare_from top 0 first map longer in
    record {
      in_sync = omega arith;
      kept = λ k f. c.kept k (lengthened k f);
      flagged =
          All-imp (FlaggedFrom top 0 compared.history) (Flagged top compared.history)
            compared.unstable
            (λ i f.
              let (k, at, flag) = f in
              let same_index : k ≡ i = omega arith in
              subst (Flagged top compared.history) same_index flag)
            c.flagged;
    }

before_max : (b : Bool) (iter : ℕ) → (not b && ltb iter cal_stage_max) ≡ true → iter < 8
before_max true iter h = cc
before_max false iter h = grind arith

more_iterations-bound :
    (unstable : List ℕ) (iter bound : ℕ)
    → iter ≤ bound
    → 10 ≤ bound
    → more_iterations unstable iter ≤ bound
unfolding more_iterations
more_iterations-bound unstable iter bound h b =
    elim (Bool-cases (not (is_empty unstable) && ltb iter cal_stage_max)) [
      | inl more ↦ rw more (let few = before_max (is_empty unstable) iter more in omega arith)
      | inr same ↦ rw same h
    ]

-- What runs lead to from a state, where none of them fails.
pub data Runs {S : Type 0} (F : Fuzzer S) : S → S → Type 0 where
  stays : {s : S} → Runs F s s
  runs :
      {s s' : S} (out : ExitKind × List ℕ) (s₁ : S)
      → F.run_target s ≡ some (out, s₁)
      → Runs F s₁ s'
      → Runs F s s'

module _ {S : Type 0} (F : Fuzzer S) (top : ℕ) (n : top ≢ 0) where
  -- How the loop ends from a state: a run fails in a state that the runs before led to, or the history's
  -- count is in step and what was found is flagged.
  pub data Calibrated (s : S) : Result StageError ((Option MapState × List ℕ) × S) → Type 0 where
    run_failed : (s' : S) → Runs F s s' → F.run_target s' ≡ none → Calibrated s (err failed)
    calibrated :
        (m : MapState) (found : List ℕ) (s' : S)
        → Runs F s s'
        → InSync m
        → All (Flagged top m.history_map) found
        → Calibrated s (ok ((some m, found), s'))

  pub Calibrated-after :
      (s s₁ : S) (out : ExitKind × List ℕ) (r : Result StageError ((Option MapState × List ℕ) × S))
      → F.run_target s ≡ some (out, s₁)
      → Calibrated s₁ r
      → Calibrated s r
  Calibrated-after s s₁ out _ g (run_failed s' more none_left) =
      run_failed s' (runs out s₁ g more) none_left
  Calibrated-after s s₁ out _ g (calibrated m found s' more sync flagged) =
      calibrated m found s' (runs out s₁ g more) sync flagged

  calibrate_turn :
      (fuel i iter bound : ℕ) (first : List ℕ) (m : MapState) (unstable : List ℕ) (s : S)
      → (x : Option ((ExitKind × List ℕ) × S)) → F.run_target s ≡ x
      → ltb i iter ≡ true
      → iter ≤ bound
      → 10 ≤ bound
      → InSync m
      → All (Flagged top m.history_map) unstable
      → ((iter' : ℕ) (m' : MapState) (found : List ℕ) (s' : S)
          → iter' ≤ bound
          → InSync m'
          → All (Flagged top m'.history_map) found
          → Calibrated s' (calibrate F top fuel (i + 1) iter' first (some m') found s'))
      → Calibrated s (calibrate F top (suc fuel) i iter first (some m) unstable s)
  unfolding calibrate
  calibrate_turn fuel i iter bound first m unstable s none g going b c sync flagged later =
      rw (going, calibrate, g) (run_failed s stays g)
  calibrate_turn fuel i iter bound first m unstable s (some ((kind, map), s₁)) g going b c sync
        flagged later =
      elim (Bool-cases (is_timeout kind)) [
        | inl late ↦
            rw (going, calibrate, g, late)
              (Calibrated-after s s₁ (kind, map) _ g (later iter m unstable s₁ b sync flagged))
        | inr ended ↦
            let marked = compare-Marked top first map m n sync in
            let found = compare top first map m in
            let all =
              All-append (Flagged top found.0.history_map) unstable found.1
                (All-imp (Flagged top m.history_map) (Flagged top found.0.history_map) unstable
                  marked.kept flagged)
                marked.flagged in
            rw (going, calibrate, g, ended)
              (Calibrated-after s s₁ (kind, map) _ g
                (later (more_iterations (unstable ++ found.1) iter) found.0 (unstable ++ found.1) s₁
                  (more_iterations-bound (unstable ++ found.1) iter bound b c) marked.in_sync all))
      ]

  -- The loop ends, whatever the runs give: at most ten iterations are added to.
  pub calibrate-Calibrated :
      (fuel i iter bound : ℕ) (first : List ℕ) (m : MapState) (unstable : List ℕ) (s : S)
      → iter ≤ bound
      → 10 ≤ bound
      → i ≤ bound
      → bound < fuel + i
      → InSync m
      → All (Flagged top m.history_map) unstable
      → Calibrated s (calibrate F top fuel i iter first (some m) unstable s)
  unfolding calibrate
  calibrate-Calibrated zero i iter bound first m unstable s b c d f sync flagged =
      absurd (omega arith)
  calibrate-Calibrated (suc fuel) i iter bound first m unstable s b c d f sync flagged =
      elim (Bool-cases (ltb i iter)) [
        | inr ended ↦ rw (ended, calibrate) (calibrated m unstable s stays sync flagged)
        | inl going ↦
            let lt : i < iter = grind arith in
            calibrate_turn fuel i iter bound first m unstable s (F.run_target s) refl going b c sync
              flagged
              (λ iter' m' found s' b' sync' flagged'.
                calibrate-Calibrated fuel (i + 1) iter' bound first m' found s' b' c (omega arith)
                  (omega arith) sync' flagged')
      ]
