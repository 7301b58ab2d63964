-- ===== src/MarkerDetect/Normalize.antt =====
-- prototypes/marker-detect/ipc/source.go: `Normalize`. The map is an association list by id, and
-- `sort.Slice` by id, where no two are equal, an insertion sort.
pub mod Accepted
use tac_os.Base.{if◌then◌else◌, int_eq, int_ltb, List, [], ◌∷◌}
use tac_os.MarkerDetect.Detection.{Floats, Detection}

module _ {F : Type 0} where
  unfoldable pub insert : Detection F → List (Detection F) → List (Detection F)
  unfolding int_ltb
  insert d [] = d ∷ []
  insert d (x ∷ xs) = let later = insert d xs in if int_ltb x.id d.id then x ∷ later else d ∷ x ∷ xs

  unfoldable pub sort : List (Detection F) → List (Detection F)
  unfolding insert
  sort [] = []
  sort (d ∷ ds) = insert d (sort ds)

module _ {F : Type 0} ⦃floats : Floats F⦄ where
  -- `if prev, ok := nearest[d.ID]; !ok || d.DistanceM < prev.DistanceM { nearest[d.ID] = d }`
  unfoldable pub keep_nearest : List (Detection F) → Detection F → List (Detection F)
  keep_nearest [] d = d ∷ []
  keep_nearest (p ∷ ps) d =
      let later = keep_nearest ps d in
      if int_eq p.id d.id
      then (if floats.less d.distance p.distance then d ∷ ps else p ∷ ps)
      else p ∷ later

  -- the loop over the input
  unfoldable pub nearest : List (Detection F) → List (Detection F) → List (Detection F)
  unfolding keep_nearest
  nearest seen [] = seen
  nearest seen (d ∷ ds) = nearest (keep_nearest seen d) ds

  unfoldable pub normalize : List (Detection F) → List (Detection F)
  unfolding nearest sort
  normalize input = sort (nearest [] input)
