-- ===== src/Libafl/StabilityCheck/Performs.antt =====
-- How the stage of crates/stratamoto-libafl/src/stages/stability_check.rs ends.
use stratamoto.Base.{
  ℕ, ◌+◌, ◌≡◌, ◌≢◌, ◌⊎◌, inl, inr, refl, ap, sym, ◌∙◌, Bool, true, false, List, [], ◌∷◌, Option,
  none, some, ltb, ◌==◌, ==_iff, if◌then◌else◌, Bool-cases, contains, set_insert,
  contains-set_insert, Result, ok, err, panic, ◌>>=◌, arith,
}
use stratamoto.Libafl.StabilityCheck.{
  MapState, UnstableEntriesMetadata, ExitKind, StageError, failed, Stability, Fuzzer, Checked,
  is_empty, cal_stage_max, fire_event, report_unstable, report_stable, report, filled_of, perform,
}
use stratamoto.Libafl.StabilityCheck.InSync.{
  InSync, Runs, stays, Calibrated, run_failed, calibrated, Calibrated-after, calibrate-Calibrated,
}

module _ {S : Type 0} (F : Fuzzer S) (top : ℕ) where
  -- What a report does: it fails, or panics where nothing was filled, or leaves the coverage map and the
  -- entries seen.
  data Reported (filled_count : ℕ) (c : Checked S) : Result StageError (Checked S) → Type 0 where
    report_failed :
        (ratio : Stability) → F.fire ratio c.rest ≡ none → Reported filled_count c (err failed)
    unfilled : filled_count ≡ 0 → Reported filled_count c panic
    reported : (c' : Checked S) → c'.map_state ≡ c.map_state → Reported filled_count c (ok c')

  fired-Reported :
      (filled_count : ℕ) (ratio : Stability) (c₀ c : Checked S) (x : Option S)
      → F.fire ratio c.rest ≡ x
      → c.map_state ≡ c₀.map_state
      → c.rest ≡ c₀.rest
      → Reported filled_count c₀ (fire_event F top ratio c)
  unfolding fire_event
  fired-Reported filled_count ratio c₀ c none g same rest =
      rw (g, fire_event) (report_failed ratio (ap (F.fire ratio) (sym rest) ∙ g))
  fired-Reported filled_count ratio c₀ c (some s) g same rest = rw (g, fire_event) (reported _ same)

  unstable-Reported :
      (unstable : List ℕ) (filled_count : ℕ) (c : Checked S)
      → Reported filled_count c (report_unstable F top unstable filled_count c)
  unfolding report_unstable
  unstable-Reported unstable filled_count c = elim (Bool-cases (filled_count == 0)) [
    | inl zero_filled ↦ rw zero_filled (unfilled ((==_iff filled_count 0).0 zero_filled))
    | inr filled ↦ rw filled (fired-Reported filled_count _ c _ _ refl refl refl)
  ]

  stable-Reported :
      (filled_count : ℕ) (seen : List ℕ) (map_state : Option MapState)
      (m : Option UnstableEntriesMetadata) (rest : S)
      → let c : Checked S = record {
        seen = seen;
        map_state = map_state;
        metadata = m;
        rest = rest;
      } in
        Reported filled_count c (report_stable F top filled_count c)
  unfolding report_stable
  stable-Reported filled_count seen map_state (some m) rest = reported _ refl
  stable-Reported filled_count seen map_state none rest = elim (Bool-cases (ltb 0 filled_count)) [
    | inl filled ↦ rw filled (fired-Reported filled_count _ _ _ _ refl refl refl)
    | inr zero_filled ↦ rw zero_filled (reported _ refl)
  ]

  report-Reported :
      (unstable : List ℕ) (filled_count : ℕ) (c : Checked S)
      → Reported filled_count c (report F top unstable filled_count c)
  unfolding report is_empty
  report-Reported [] filled_count c =
      stable-Reported filled_count c.seen c.map_state c.metadata c.rest
  report-Reported (x ∷ unstable) filled_count c = unstable-Reported (x ∷ unstable) filled_count c

  -- How the stage ends on an entry: an entry that was seen or cannot be read is left, a run or an event
  -- fails in a state that the runs before led to, the assertion on an empty map fails, or the count is in step with the history and the entry
  -- is seen.
  pub data Performs (cur : ℕ) (has_input : Bool) (c : Checked S) (m : MapState)
      : Result StageError (Checked S) → Type 0 where
    left : (contains c.seen cur ≡ true) ⊎ (has_input ≡ false) → Performs cur has_input c m (ok c)
    stage_failed :
        (s : S)
        → Runs F c.rest s
        → (F.run_target s ≡ none) ⊎ ((ratio : Stability) × (F.fire ratio s ≡ none))
        → Performs cur has_input c m (err failed)
    nothing_filled : m.num_covered_map_indexes ≡ 0 → Performs cur has_input c m panic
    checked :
        (c' : Checked S) (m' : MapState)
        → c'.map_state ≡ some m'
        → InSync m'
        → contains c'.seen cur ≡ true
        → Performs cur has_input c m (ok c')

  inserted : (cur : ℕ) (seen : List ℕ) → contains (set_insert cur seen) cur ≡ true
  inserted cur seen =
      contains-set_insert cur cur seen
      ∙ (let same : (cur == cur) ≡ true = (==_iff cur cur).1 refl in
          ap (λ b. if b then true else contains seen cur) same)

  reported-Performs :
      (cur : ℕ) (has_input : Bool) (c c₁ : Checked S) (m m' : MapState)
      (r : Result StageError (Checked S))
      → c₁.map_state ≡ some m'
      → Runs F c.rest c₁.rest
      → InSync m'
      → Reported m.num_covered_map_indexes c₁ r
      → Performs cur has_input c m (r >>= λ x. ok (record x { seen = set_insert cur x.seen }))
  reported-Performs cur has_input c c₁ m m' _ at ran sync (report_failed ratio g) =
      stage_failed c₁.rest ran (inr (ratio, g))
  reported-Performs cur has_input c c₁ m m' _ at ran sync (unfilled z) = nothing_filled z
  reported-Performs cur has_input c c₁ m m' _ at ran sync (reported c' same) =
      checked _ m' (same ∙ at) sync (inserted cur c'.seen)

  calibrated-Performs :
      (n : top ≢ 0) (cur : ℕ) (has_input : Bool) (c : Checked S) (m : MapState)
      → (r : Result StageError ((Option MapState × List ℕ) × S)) → Calibrated F top n c.rest r
      → Performs cur has_input c m (do
        ((m', unstable), s₁) ← r
        x ← report F top unstable m.num_covered_map_indexes (record c { map_state = m'; rest = s₁ })
        ok (record x { seen = set_insert cur x.seen }))
  calibrated-Performs n cur has_input c m _ (run_failed s more g) = stage_failed s more (inl g)
  calibrated-Performs n cur has_input c m _ (calibrated m' found s more sync flagged) =
      reported-Performs cur has_input c (record c { map_state = some m'; rest = s }) m m' _ refl
        more sync
        (report-Reported found m.num_covered_map_indexes
          (record c { map_state = some m'; rest = s }))

  run-Performs :
      (stage_max cur : ℕ) (c : Checked S) (m : MapState) (x : Option ((ExitKind × List ℕ) × S))
      → F.run_target c.rest ≡ x
      → contains c.seen cur ≡ false
      → top ≢ 0
      → InSync m
      → Performs cur true
          (record c { map_state = some m })
          m
          (perform F top stage_max cur true (record c { map_state = some m }))
  unfolding perform filled_of
  run-Performs stage_max cur c m none g new n sync =
      rw (new, perform, g) (stage_failed c.rest stays (inl g))
  run-Performs stage_max cur c m (some ((kind, first), s)) g new n sync =
      rw (new, perform, g)
        (calibrated-Performs n cur true (record c { map_state = some m }) m _
          (Calibrated-after F top n c.rest s (kind, first) _ g
            (calibrate-Calibrated F top n (stage_max + cal_stage_max + 2) 1 stage_max
              (stage_max + cal_stage_max + 2) first m [] s (omega arith) (omega arith) (omega arith)
              (omega arith) sync tt)))

  new-Performs :
      (stage_max cur : ℕ) (has_input : Bool) (c : Checked S) (m : MapState)
      → contains c.seen cur ≡ false
      → top ≢ 0
      → InSync m
      → Performs cur has_input
          (record c { map_state = some m })
          m
          (perform F top stage_max cur has_input (record c { map_state = some m }))
  unfolding perform
  new-Performs stage_max cur true c m new n sync = run-Performs stage_max cur c m _ refl new n sync
  new-Performs stage_max cur false c m new n sync = rw (new, perform) (left (inr refl))

  -- With a count of covered entries in step with the history, and a greatest entry that is not zero,
  -- the stability check ends: it leaves an entry that was seen or cannot be read, fails only where a
  -- run or an event fails in a state that the runs before led to, panics only where the count is zero,
  -- and otherwise keeps the count in step and remembers the entry.
  pub perform-Performs :
      (stage_max cur : ℕ) (has_input : Bool) (c : Checked S) (m : MapState)
      → top ≢ 0
      → InSync m
      → Performs cur has_input
          (record c { map_state = some m })
          m
          (perform F top stage_max cur has_input (record c { map_state = some m }))
  unfolding perform
  perform-Performs stage_max cur has_input c m n sync = elim (Bool-cases (contains c.seen cur)) [
    | inl old ↦ rw (old, perform) (left (inl old))
    | inr new ↦ new-Performs stage_max cur has_input c m new n sync
  ]
