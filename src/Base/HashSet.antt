-- ===== src/Base/HashSet.antt =====
-- `HashSet` as a list, like `HashMap`.
use mathlib.Core.Path.{◌≡◌}
use mathlib.Core.Bool.{Bool, false, ◌||◌, ◌&&◌, not}
use mathlib.Core.List.{List, [], ◌∷◌}
use native.Mathlib.Omega.{arith}
use spatiad.Base.Tests.{PartialEq, ◌==◌, if◌then◌else◌}

abbrev pub HashSet : Type 0 → Type 0
HashSet = List

module _ {K : Type 0} ⦃e : PartialEq K⦄ where
  unfoldable pub contains : K → HashSet K → Bool
  contains k [] = false
  contains k (j ∷ s) = k == j || contains k s

  -- `insert` also returns whether the value was new: that is `not (contains k s)`.
  unfoldable pub insert : K → HashSet K → HashSet K
  insert k s = if contains k s then s else k ∷ s

  unfoldable pub remove : K → HashSet K → HashSet K
  remove k [] = []
  remove k (j ∷ s) = let rest = remove k s in if k == j then rest else j ∷ rest

  pub contains-insert :
      (j k : K) (s : HashSet K) → contains j (insert k s) ≡ (j == k || contains j s)
  unfolding contains insert
  contains-insert j k s = ground (arith, e.eq_iff j k)

  pub contains-remove :
      (j k : K) (s : HashSet K) → contains j (remove k s) ≡ (not (j == k) && contains j s)
  unfolding contains remove
  contains-remove j k [] = ground arith
  contains-remove j k (i ∷ s) =
      ground (arith, e.eq_iff j k, e.eq_iff k i, e.eq_iff j i, contains-remove j k s)
