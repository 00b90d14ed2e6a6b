-- ===== src/Base/HashMap.antt =====
-- `HashMap` as an association list. Rust leaves the iteration order open: here it is that of the
-- list, and every theorem ranges over all lists.
use mathlib.Core.Path.{◌≡◌, refl}
use mathlib.Core.Bool.{Bool, true, false}
use mathlib.Core.Option
use mathlib.Core.Option.{Option, none, some}
use mathlib.Core.List.{List, [], ◌∷◌, map}
use native.Mathlib.Omega.{arith}
use spatiad.Base.Tests.{PartialEq, ◌==◌, if◌then◌else◌}
use spatiad.Base.Lists.{any}

abbrev pub HashMap : Type 0 → Type 0 → Type 0
HashMap K V = List (K × V)

module _ {K V : Type 0} where
  abbrev pub values : HashMap K V → List V
  values = map (λ e. e.1)

  -- A loop over `values_mut()`.
  pub map_values : (V → V) → HashMap K V → HashMap K V
  map_values f [] = []
  map_values f ((k, v) ∷ m) = (k, f v) ∷ map_values f m

module _ {K V : Type 0} ⦃e : PartialEq K⦄ where
  unfoldable pub get : K → HashMap K V → Option V
  get k [] = none
  get k ((j, v) ∷ m) = if k == j then some v else get k m

  abbrev pub contains_key : K → HashMap K V → Bool
  contains_key k m = elim (get k m) [ none ↦ false | some _ ↦ true ]

  unfoldable pub insert : K → V → HashMap K V → HashMap K V
  insert k v [] = (k, v) ∷ []
  insert k v ((j, w) ∷ m) = if k == j then (k, v) ∷ m else (j, w) ∷ insert k v m

  unfoldable pub remove : K → HashMap K V → HashMap K V
  remove k [] = []
  remove k ((j, w) ∷ m) = let rest = remove k m in if k == j then rest else (j, w) ∷ rest

  -- `if let Some(v) = m.get_mut(k) { *v = f(v) }`.
  unfoldable pub adjust : K → (V → V) → HashMap K V → HashMap K V
  adjust k f [] = []
  adjust k f ((j, w) ∷ m) = if k == j then (j, f w) ∷ m else (j, w) ∷ adjust k f m

  pub get-insert :
      (j k : K) (v : V) (m : HashMap K V)
      → get j (insert k v m) ≡ (if j == k then some v else get j m)
  unfolding get insert
  get-insert j k v [] = refl
  get-insert j k v ((i, w) ∷ m) =
      ground (arith, e.eq_iff j k, e.eq_iff k i, e.eq_iff j i, get-insert j k v m)

  pub get-remove :
      (j k : K) (m : HashMap K V) → get j (remove k m) ≡ (if j == k then none else get j m)
  unfolding get remove
  get-remove j k [] = ground arith
  get-remove j k ((i, w) ∷ m) =
      ground (arith, e.eq_iff j k, e.eq_iff k i, e.eq_iff j i, get-remove j k m)

  pub get-adjust :
      (j k : K) (f : V → V) (m : HashMap K V)
      → get j (adjust k f m) ≡ (if j == k then Option.map f (get j m) else get j m)
  unfolding get adjust
  get-adjust j k f [] = ground arith
  get-adjust j k f ((i, w) ∷ m) =
      ground (arith, e.eq_iff j k, e.eq_iff k i, e.eq_iff j i, get-adjust j k f m)

  pub get-map_values :
      (j : K) (f : V → V) (m : HashMap K V) → get j (map_values f m) ≡ Option.map f (get j m)
  unfolding get map_values
  get-map_values j f [] = refl
  get-map_values j f ((i, w) ∷ m) = ground (arith, get-map_values j f m)

  -- A test that no value passes fails on every value that a key finds.
  pub any-values-get :
      (p : V → Bool) (k : K) (v : V) (m : HashMap K V)
      → any p (values m) ≡ false
      → get k m ≡ some v
      → p v ≡ false
  unfolding get
  any-values-get p k v [] h g = ground arith
  any-values-get p k v ((i, w) ∷ m) h g = ground (arith, any-values-get p k v m)

  pub any-values-remove :
      (p : V → Bool) (k : K) (m : HashMap K V)
      → any p (values m) ≡ false
      → any p (values (remove k m)) ≡ false
  unfolding remove
  any-values-remove p k [] h = h
  any-values-remove p k ((j, x) ∷ m) h = ground (arith, h, any-values-remove p k m)

  pub any-values-insert :
      (p : V → Bool) (k : K) (v : V) (m : HashMap K V)
      → p v ≡ false
      → any p (values m) ≡ false
      → any p (values (insert k v m)) ≡ false
  unfolding insert
  any-values-insert p k v [] q h = ground (arith, q)
  any-values-insert p k v ((j, x) ∷ m) q h = ground (arith, q, h, any-values-insert p k v m)
