-- ===== src/Merge.antt =====
-- controllers/runtime_helpers.go: the overlay of named items that `mergeEnvVars` and
-- `mergeRestoreSecretRefs` write out twice, over a map from names to positions. The proofs are in
-- the module below this one.
pub mod LastWins
use dataprotection.Base.{
  ℕ, zero, suc, ◌+◌, List, [], ◌∷◌, ◌++◌, Option, none, some, Text, text_eq, if◌then◌else◌, length,
}

-- A map[string]int, the latest entry first.
abbrev pub Index : Type 0
Index = List (Text × ℕ)

unfoldable pub find : Text → Index → Option ℕ
find k [] = none
find k ((j, i) ∷ index) = if text_eq j k then some i else find k index

module _ {ℓ} {A : Type ℓ} where
  -- result[i] = value
  unfoldable pub set : List A → ℕ → A → List A
  set [] i v = []
  set (x ∷ xs) zero v = v ∷ xs
  set (x ∷ xs) (suc i) v = x ∷ set xs i v

module _ {ℓ} {A : Type ℓ} (key : A → Text) where
  -- `for i, item := range result { index[item.Name] = i }`
  unfoldable pub index_loop : ℕ → Index → List A → Index
  index_loop i index [] = index
  index_loop i index (x ∷ xs) = index_loop (suc i) ((key x, i) ∷ index) xs

  -- The item goes to the place that the index found, or to the end.
  unfoldable pub place : List A → Index → A → Option ℕ → List A × Index
  unfolding set
  place result index x (some existing) = (set result existing x, index)
  place result index x none = (result ++ x ∷ [], (key x, length result) ∷ index)

  -- One round over the overlay: the new result and the new index.
  unfoldable pub overlay_step : List A → Index → A → List A × Index
  unfolding find place
  overlay_step result index x = place result index x (find (key x) index)

  unfoldable pub overlay_loop : List A → Index → List A → List A × Index
  unfolding overlay_step
  overlay_loop result index [] = (result, index)
  overlay_loop result index (x ∷ xs) =
      let (result', index') = overlay_step result index x in overlay_loop result' index' xs

  unfoldable pub overlays_loop : List A → Index → List (List A) → List A
  unfolding overlay_loop
  overlays_loop result index [] = result
  overlays_loop result index (o ∷ os) =
      let (result', index') = overlay_loop result index o in overlays_loop result' index' os

  unfoldable pub merge : List A → List (List A) → List A
  unfolding index_loop overlays_loop
  merge base overlays = overlays_loop base (index_loop 0 [] base) overlays
