-- ===== src/Dispatch/Nearest.antt =====
-- The order of the candidates, and the driver of a job's first offer.
use spatiad.Base.{
  ℕ, ◌≡◌, refl, sym, ◌∙◌, Bool, true, false, not, ◌&&◌, some, List, [], ◌∷◌, map, filter_map, any,
  suc, take, Bool-cases, inl, inr, ◌==◌, nat_eq, arith,
}
use spatiad.Base.Text.{Text}
use spatiad.Platform.{F64}
use spatiad.Types.{Coordinates, DriverSnapshot, JobRequest}
use spatiad.Core.State.{Engine}
use spatiad.Dispatch.{first, pick_first}
use spatiad.Core.Search.{
  haversine_km, candidate, insert_sorted, sort_by_distance, nearest_candidates_in_radius,
}
use spatiad.Core.Search.Selection.{is_eligible, any-insert_sorted, any-sort_by_distance}

-- `f64::total_cmp` is a total order.
pub record IsTotalOrder (F : Type 0) ⦃f : F64 F⦄ : Type 0 where
  pub total : (x y : F) → f.total_le x y ≡ false → f.total_le y x ≡ true
  pub trans : (x y z : F) → f.total_le x y ≡ true → f.total_le y z ≡ true → f.total_le x z ≡ true

module _ {F : Type 0} ⦃f : F64 F⦄ where
  abbrev is_nearer_than : F → ℕ × F → Bool
  is_nearer_than d y = not (f.total_le d y.1)

  -- No element is nearer than the first.
  abbrev is_least_first : List (ℕ × F) → Bool
  is_least_first [] = true
  is_least_first (x ∷ xs) = not (any (is_nearer_than x.1) xs)

  any-is_nearer_than :
      (laws : IsTotalOrder F) (x y : F) (zs : List (ℕ × F))
      → f.total_le x y ≡ true
      → any (is_nearer_than y) zs ≡ false
      → any (is_nearer_than x) zs ≡ false
  any-is_nearer_than laws x y [] p q = q
  any-is_nearer_than laws x y (z ∷ zs) p q =
      ground (arith, p, q, laws.trans x y z.1, any-is_nearer_than laws x y zs p)

  insert_sorted-is_least_first :
      (laws : IsTotalOrder F) (x : ℕ × F) (ys : List (ℕ × F))
      → is_least_first ys ≡ true
      → is_least_first (insert_sorted x ys) ≡ true
  unfolding insert_sorted
  insert_sorted-is_least_first laws x [] p = refl
  insert_sorted-is_least_first laws x (y ∷ ys) p = elim (Bool-cases (f.total_le x.1 y.1)) [
    | inl q ↦ ground (arith, p, q, any-is_nearer_than laws x.1 y.1 ys q)
    | inr q ↦
        ground (arith, p, q, laws.total x.1 y.1 q, any-insert_sorted (is_nearer_than y.1) x ys)
  ]

  sort_by_distance-is_least_first :
      (laws : IsTotalOrder F) (xs : List (ℕ × F)) → is_least_first (sort_by_distance xs) ≡ true
  unfolding sort_by_distance
  sort_by_distance-is_least_first laws [] = refl
  sort_by_distance-is_least_first laws (x ∷ xs) =
      insert_sorted-is_least_first laws x (sort_by_distance xs)
        (sort_by_distance-is_least_first laws xs)

  -- No eligible driver is nearer to the pickup than the distance.
  abbrev pub is_undercut : Coordinates F → Text → F → F → ℕ × DriverSnapshot F → Bool
  is_undercut pickup category radius_km d en =
      is_eligible pickup category radius_km en
      && not (f.total_le d (haversine_km pickup en.1.position))

  any-is_undercut :
      (pickup : Coordinates F) (category : Text) (radius_km d : F)
      (drivers : List (ℕ × DriverSnapshot F))
      → any (is_nearer_than d) (filter_map (candidate pickup category radius_km) drivers) ≡ false
      → any (is_undercut pickup category radius_km d) drivers ≡ false
  unfolding candidate
  any-is_undercut pickup category radius_km d [] p = refl
  any-is_undercut pickup category radius_km d ((i, driver) ∷ drivers) p =
      ground (arith, p, any-is_undercut pickup category radius_km d drivers)

  -- An eligible driver such that no eligible driver of the list is nearer.
  abbrev pub is_nearest :
      Coordinates F → Text → F → List (ℕ × DriverSnapshot F) → ℕ × DriverSnapshot F → Bool
  is_nearest pickup category radius_km drivers en =
      is_eligible pickup category radius_km en
      && not
          (any (is_undercut pickup category radius_km (haversine_km pickup en.1.position)) drivers)

  -- A driver of the list that a candidate names, and that is nearest if the candidate is.
  candidate-is_nearest :
      (pickup : Coordinates F) (category : Text) (radius_km : F) (driver_id : ℕ)
      (all drivers : List (ℕ × DriverSnapshot F))
      → any
          (λ y. driver_id == y.0 && not (any (is_undercut pickup category radius_km y.1) all))
          (filter_map (candidate pickup category radius_km) drivers)
        ≡ true
      → any (λ en. driver_id == en.0 && is_nearest pickup category radius_km all en) drivers ≡ true
  unfolding candidate
  candidate-is_nearest pickup category radius_km driver_id all [] p = p
  candidate-is_nearest pickup category radius_km driver_id all ((i, driver) ∷ drivers) p =
      ground (arith, p, candidate-is_nearest pickup category radius_km driver_id all drivers)

  -- The first candidate of a sorted list.
  first-is_nearest :
      (laws : IsTotalOrder F) (pickup : Coordinates F) (category : Text) (radius_km : F)
      (driver_id limit : ℕ) (all : List (ℕ × DriverSnapshot F)) (sorted : List (ℕ × F))
      → is_least_first sorted ≡ true
      → ((d : F)
          → any (is_nearer_than d) sorted
            ≡ any (is_nearer_than d) (filter_map (candidate pickup category radius_km) all))
      → first (map (λ x. x.0) (take (suc limit) sorted)) ≡ some driver_id
      → any
          (λ y. driver_id == y.0 && not (any (is_undercut pickup category radius_km y.1) all))
          sorted
        ≡ true
  first-is_nearest laws pickup category radius_km driver_id limit all [] p same q =
      ground (arith, q)
  first-is_nearest laws pickup category radius_km driver_id limit all (x ∷ xs) p same q =
      let nobody : any (is_nearer_than x.1) (x ∷ xs) ≡ false =
        ground (arith, p, laws.total x.1 x.1) in
      ground (arith, q, any-is_undercut pickup category radius_km x.1 all (sym (same x.1) ∙ nobody))

  module _ {S : Type 0} where
    pub pick_first-is_nearest :
        (laws : IsTotalOrder F) (e : Engine F S) (job : JobRequest F) (radius_km : F)
        (driver_id : ℕ)
        → pick_first e job radius_km ≡ some driver_id
        → any
            (λ en. driver_id == en.0 && is_nearest job.pickup job.category radius_km e.drivers en)
            e.drivers
          ≡ true
    unfolding pick_first nearest_candidates_in_radius
    pick_first-is_nearest laws e job radius_km driver_id p =
        let found = filter_map (candidate job.pickup job.category radius_km) e.drivers in
        candidate-is_nearest job.pickup job.category radius_km driver_id e.drivers e.drivers (
          sym (any-sort_by_distance _ found)
          ∙ first-is_nearest laws job.pickup job.category radius_km driver_id 2 e.drivers
              (sort_by_distance found) (sort_by_distance-is_least_first laws found)
              (λ d. any-sort_by_distance (is_nearer_than d) found) p)
