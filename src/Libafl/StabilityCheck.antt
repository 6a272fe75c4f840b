-- ===== src/Libafl/StabilityCheck.antt =====
-- crates/stratamoto-libafl/src/stages/stability_check.rs: the stage that runs an entry again and marks
-- what of the coverage map is not stable.
-- The fuzzer is a parameter: a run of the target gives how it ended and the map, and firing an event may
-- fail; S is its state. An entry of the map is a number, of which the greatest is `top`. The log, and
-- with it whether a run had errors, is left out.
pub mod InSync
pub mod Performs
use stratamoto.Base.{
  ℕ, zero, suc, ◌+◌, ◌-◌, ◌≤◌, ◌<◌, Bool, true, false, not, ◌&&◌, ◌||◌, List, [], ◌∷◌, ◌++◌, length,
  replicate, Option, none, some, leb, ltb, ◌==◌, if◌then◌else◌, contains, set_insert, Result, ok,
  err, panic, ◌>>=◌,
}

-- `CAL_STAGE_MAX`
abbrev pub cal_stage_max : ℕ
cal_stage_max = 8

pub record UnstableEntriesMetadata : Type 0 where
  pub unstable_entries : List ℕ
  pub filled_entries_count : ℕ

-- `UnstableEntriesMetadata::new`
abbrev pub new_metadata : UnstableEntriesMetadata
new_metadata = record { unstable_entries = []; filled_entries_count = 0 }

-- What the stage uses of `MapFeedbackMetadata`.
pub record MapState : Type 0 where
  pub history_map : List ℕ
  pub num_covered_map_indexes : ℕ

pub data ExitKind : Type 0 where
  exit_ok timeout other_exit : ExitKind

pub data StageError : Type 0 where
  -- a run or an event failed, or a loop ran out of fuel
  failed not_ended : StageError

-- the stability that an event reports, as a ratio
pub record Stability : Type 0 where
  pub stable : ℕ
  pub filled : ℕ

pub record Fuzzer (S : Type 0) : Type 0 where
  pub run_target : S → Option ((ExitKind × List ℕ) × S)
  pub fire : Stability → S → Option S

-- the stage, and what it changes of the fuzzer's state
pub record Checked (S : Type 0) : Type 0 where
  pub seen : List ℕ
  pub map_state : Option MapState
  pub metadata : Option UnstableEntriesMetadata
  pub rest : S

unfoldable pub is_timeout : ExitKind → Bool
is_timeout timeout = true
is_timeout _ = false

-- `count_bytes`, the entries that are not zero
abbrev pub count_filled : List ℕ → ℕ
count_filled [] = 0
count_filled (x ∷ xs) = (if x == 0 then 0 else 1) + count_filled xs

-- What a comparison finds: the new history, how many entries it covers anew, and the unstable indices.
pub record Compared : Type 0 where
  pub history : List ℕ
  pub covered : ℕ
  pub unstable : List ℕ

unfoldable pub compare_entry : ℕ → ℕ → ℕ → ℕ → ℕ → Compared → Compared
compare_entry top idx first cur entry later =
    if not (first == cur) && not (entry == top)
    then record {
      history = top ∷ later.history;
      covered = (if entry == 0 then 1 else 0) + later.covered;
      unstable = idx ∷ later.unstable;
    }
    else record later { history = entry ∷ later.history }

-- the loop over the first map, the current one and the history
unfoldable pub compare_from : ℕ → ℕ → List ℕ → List ℕ → List ℕ → Compared
unfolding compare_entry
compare_from top idx (first ∷ firsts) (cur ∷ curs) (entry ∷ history) =
    compare_entry top idx first cur entry (compare_from top (suc idx) firsts curs history)
compare_from top idx _ _ history = record { history = history; covered = 0; unstable = [] }

-- the history as long as the first map
unfoldable pub lengthen : ℕ → List ℕ → List ℕ
lengthen n history =
    if ltb (length history) n then history ++ replicate (n - length history) 0 else history

-- the comparison of a map with the first one
unfoldable pub compare : ℕ → List ℕ → List ℕ → MapState → MapState × List ℕ
unfolding compare_from lengthen
compare top first map m =
    let c = compare_from top 0 first map (lengthen (length first) m.history_map) in
    (
      record {
        history_map = c.history;
        num_covered_map_indexes = m.num_covered_map_indexes + c.covered;
      },
      c.unstable,
    )

unfoldable pub is_empty : List ℕ → Bool
is_empty [] = true
is_empty (_ ∷ _) = false

-- two more iterations where entries are unstable
unfoldable pub more_iterations : List ℕ → ℕ → ℕ
unfolding is_empty
more_iterations unstable iter =
    if not (is_empty unstable) && ltb iter cal_stage_max then iter + 2 else iter

module _ {S : Type 0} (F : Fuzzer S) (top : ℕ) where
  -- The loop of `perform` after the first run.
  unfoldable pub calibrate :
      ℕ
      → ℕ
      → ℕ
      → List ℕ
      → Option MapState
      → List ℕ
      → S
      → Result StageError ((Option MapState × List ℕ) × S)
  unfolding compare more_iterations is_timeout
  calibrate zero i iter first m unstable s = err not_ended
  calibrate (suc fuel) i iter first m unstable s = elim (ltb i iter) [
    | false ↦ ok ((m, unstable), s)
    | true ↦ elim (F.run_target s) [
      | none ↦ err failed
      | some ((kind, map), s₁) ↦ elim (is_timeout kind) [
        | true ↦ calibrate fuel (i + 1) iter first m unstable s₁
        | false ↦ elim m [
          | none ↦ panic
          | some state ↦
              let (state₁, found) = compare top first map state in
              let unstable₁ = unstable ++ found in
              calibrate fuel (i + 1) (more_iterations unstable₁ iter) first (some state₁) unstable₁
                s₁
        ]
      ]
    ]
  ]

  unfoldable pub fire_event : Stability → Checked S → Result StageError (Checked S)
  fire_event ratio c = elim (F.fire ratio c.rest) [
    | none ↦ err failed
    | some s ↦ ok (record c { rest = s })
  ]

  unfoldable pub insert_all : List ℕ → List ℕ → List ℕ
  insert_all [] entries = entries
  insert_all (x ∷ xs) entries = insert_all xs (set_insert x entries)

  unfoldable pub metadata_or_new : Option UnstableEntriesMetadata → UnstableEntriesMetadata
  metadata_or_new none = new_metadata
  metadata_or_new (some m) = m

  -- the metadata where entries were found unstable, and the event of the ratio
  unfoldable pub report_unstable : List ℕ → ℕ → Checked S → Result StageError (Checked S)
  unfolding fire_event insert_all metadata_or_new
  report_unstable unstable filled_count c =
      let entries = insert_all unstable (metadata_or_new c.metadata).unstable_entries in
      let meta : UnstableEntriesMetadata = record {
        unstable_entries = entries;
        filled_entries_count = filled_count;
      } in
      if filled_count == 0
      then panic
      else fire_event (record { stable = filled_count - length entries; filled = filled_count })
          (record c { metadata = some meta })

  -- the metadata where nothing was found unstable, and the event of the default
  unfoldable pub report_stable : ℕ → Checked S → Result StageError (Checked S)
  unfolding fire_event
  report_stable filled_count c = elim c.metadata [
    | some _ ↦ ok c
    | none ↦
        if ltb 0 filled_count
        then fire_event (record { stable = 1; filled = 1 })
            (record c { metadata = some new_metadata })
        else ok c
  ]

  unfoldable pub report : List ℕ → ℕ → Checked S → Result StageError (Checked S)
  unfolding report_unstable report_stable is_empty
  report unstable filled_count c =
      if is_empty unstable
      then report_stable filled_count c
      else report_unstable unstable filled_count c

  -- how many entries were filled before the entry is run again
  unfoldable pub filled_of : Option MapState → List ℕ → ℕ
  filled_of none first = count_filled first
  filled_of (some m) first = m.num_covered_map_indexes

  -- `perform` on a corpus entry, and whether it can be read as an input
  unfoldable pub perform : ℕ → ℕ → Bool → Checked S → Result StageError (Checked S)
  unfolding calibrate report filled_of
  perform stage_max cur has_input c =
      if contains c.seen cur || not has_input then ok c else elim (F.run_target c.rest) [
        | none ↦ err failed
        | some ((kind, first), s) ↦ do
          ((m, unstable), s₁) ←
              calibrate (stage_max + cal_stage_max + 2) 1 stage_max first c.map_state [] s
          checked ←
              report unstable (filled_of c.map_state first) (record c { map_state = m; rest = s₁ })
          ok (record checked { seen = set_insert cur checked.seen })
      ]
