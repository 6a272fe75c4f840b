-- ===== src/Base/Maps.antt =====
-- A hash set and a hash map over numbers, as a list without repetitions and as a list of pairs.
use Prim.Native.Nat.{ℕ}
use mathlib.Core.Path.{◌≡◌, refl}
use mathlib.Core.Bool.{Bool, true, false}
use mathlib.Core.List.{List, [], ◌∷◌}
use mathlib.Core.Option.{Option, none, some}
use native.Mathlib.Omega.{arith}
use stratamoto.Base.Tests.{◌==◌, if◌then◌else◌}

-- `HashSet::contains`
unfoldable pub contains : List ℕ → ℕ → Bool
contains [] k = false
contains (x ∷ xs) k = if x == k then true else contains xs k

-- `HashSet::insert` as a set: inserting what is there changes nothing.
unfoldable pub set_insert : ℕ → List ℕ → List ℕ
set_insert k xs = if contains xs k then xs else k ∷ xs

-- `HashSet::remove`
unfoldable pub set_remove : ℕ → List ℕ → List ℕ
set_remove k [] = []
set_remove k (x ∷ xs) = if x == k then set_remove k xs else x ∷ set_remove k xs

pub contains-set_insert :
    (k j : ℕ) (xs : List ℕ)
    → contains (set_insert k xs) j ≡ (if k == j then true else contains xs j)
unfolding set_insert contains
contains-set_insert k j [] = ground arith
contains-set_insert k j (x ∷ xs) = ground (arith, contains-set_insert k j xs)

module _ {ℓ} {V : Type ℓ} where
  -- `HashMap::get`
  unfoldable pub map_get : ℕ → List (ℕ × V) → Option V
  map_get k [] = none
  map_get k ((j, v) ∷ m) = if j == k then some v else map_get k m

  -- `HashMap::insert`
  unfoldable pub map_insert : ℕ → V → List (ℕ × V) → List (ℕ × V)
  map_insert k v [] = (k, v) ∷ []
  map_insert k v ((j, w) ∷ m) = if j == k then (k, v) ∷ m else (j, w) ∷ map_insert k v m

  pub map_get-map_insert :
      (k j : ℕ) (v : V) (m : List (ℕ × V))
      → map_get j (map_insert k v m) ≡ (if k == j then some v else map_get j m)
  unfolding map_get map_insert
  map_get-map_insert k j v [] = refl
  map_get-map_insert k j v ((i, w) ∷ m) = ground (arith, map_get-map_insert k j v m)
