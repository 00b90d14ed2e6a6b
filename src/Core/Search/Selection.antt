-- ===== src/Core/Search/Selection.antt =====
-- Which driver a search finds.
use spatiad.Base.{
  ℕ, zero, suc, ◌≡◌, refl, ◌∙◌, sym, ap, Bool, true, false, ◌&&◌, ◌||◌, Option, some, Option-cases,
  Bool-cases, inl, inr, List, [], ◌∷◌, map, filter_map, any, find, take, ◌==◌, nat_eq, arith,
}
use spatiad.Base.Text.{Text, eq_ignore_ascii_case}
use spatiad.Base.HashSet
use spatiad.Platform.{F64}
use spatiad.Types.{Coordinates, DriverSnapshot, JobRequest, is_available}
use spatiad.Core.State.{Engine}
use spatiad.Core.Search.{
  Search, haversine_km, expand_radius_km, candidate, insert_sorted, sort_by_distance, search_from,
  search_job, nearest_candidates_in_radius, already_offered, pick_next,
}

module _ {A : Type 0} where
  any-take : (p : A → Bool) (n : ℕ) (xs : List A) → any p (take n xs) ≡ true → any p xs ≡ true
  any-take p zero xs q = ground arith
  any-take p (suc n) [] q = q
  any-take p (suc n) (x ∷ xs) q = ground (arith, q, any-take p n xs)

  any-weaken :
      (p q : A → Bool) (xs : List A)
      → ((x : A) → p x ≡ true → q x ≡ true)
      → any p xs ≡ true
      → any q xs ≡ true
  any-weaken p q [] w h = h
  any-weaken p q (x ∷ xs) w h = ground (arith, h, w x, any-weaken p q xs w)

-- The first element that passes a test passes it, and is in the list.
find-any :
    (p : ℕ → Bool) (xs : List ℕ) (x : ℕ)
    → find p xs ≡ some x
    → (p x ≡ true) × (any (λ y. x == y) xs ≡ true)
find-any p [] x q = ground arith
find-any p (y ∷ ys) x q = ground (arith, q, find-any p ys x)

module _ {F : Type 0} ⦃f : F64 F⦄ where
  -- An available driver of the category within the radius.
  abbrev pub is_eligible : Coordinates F → Text → F → ℕ × DriverSnapshot F → Bool
  is_eligible pickup category radius_km (_, driver) =
      is_available driver.status
      && (eq_ignore_ascii_case driver.category category
          && f.le (haversine_km pickup driver.position) radius_km)

  abbrev is_named : ℕ → ℕ × F → Bool
  is_named driver_id x = driver_id == x.0

  candidate-is_eligible :
      (pickup : Coordinates F) (category : Text) (radius_km : F) (driver_id : ℕ)
      (drivers : List (ℕ × DriverSnapshot F))
      → any (is_named driver_id) (filter_map (candidate pickup category radius_km) drivers) ≡ true
      → any (λ en. driver_id == en.0 && is_eligible pickup category radius_km en) drivers ≡ true
  unfolding candidate
  candidate-is_eligible pickup category radius_km driver_id [] h = h
  candidate-is_eligible pickup category radius_km driver_id ((i, d) ∷ drivers) h =
      ground (arith, h, candidate-is_eligible pickup category radius_km driver_id drivers)

  pub any-insert_sorted :
      (p : ℕ × F → Bool) (x : ℕ × F) (ys : List (ℕ × F))
      → any p (insert_sorted x ys) ≡ (p x || any p ys)
  unfolding insert_sorted
  any-insert_sorted p x [] = refl
  any-insert_sorted p x (y ∷ ys) = ground (arith, any-insert_sorted p x ys)

  pub any-sort_by_distance :
      (p : ℕ × F → Bool) (xs : List (ℕ × F)) → any p (sort_by_distance xs) ≡ any p xs
  unfolding sort_by_distance
  any-sort_by_distance p [] = refl
  any-sort_by_distance p (x ∷ xs) =
      any-insert_sorted p x (sort_by_distance xs) ∙ ap (λ r. p x || r) (any-sort_by_distance p xs)

  any-map_fst :
      (driver_id : ℕ) (xs : List (ℕ × F))
      → any (λ y. driver_id == y) (map (λ x. x.0) xs) ≡ any (is_named driver_id) xs
  any-map_fst driver_id [] = refl
  any-map_fst driver_id (x ∷ xs) = ap (λ r. is_named driver_id x || r) (any-map_fst driver_id xs)

  module _ {S : Type 0} where
    -- A driver among the nearest candidates is registered and eligible.
    nearest-is_eligible :
        (e : Engine F S) (pickup : Coordinates F) (category : Text) (radius_km : F)
        (limit driver_id : ℕ)
        → any (λ y. driver_id == y) (nearest_candidates_in_radius e pickup category radius_km limit)
          ≡ true
        → any (λ en. driver_id == en.0 && is_eligible pickup category radius_km en) e.drivers ≡ true
    unfolding nearest_candidates_in_radius
    nearest-is_eligible e pickup category radius_km limit driver_id h =
        let found = filter_map (candidate pickup category radius_km) e.drivers in
        candidate-is_eligible pickup category radius_km driver_id e.drivers (
          sym (any-sort_by_distance (is_named driver_id) found)
          ∙ any-take (is_named driver_id) limit (sort_by_distance found)
              (sym (any-map_fst driver_id (take limit (sort_by_distance found))) ∙ h))

    -- The driver that is picked at a radius was not offered the job before, and is registered and
    -- eligible.
    pub pick_next-is_eligible :
        (e : Engine F S) (job_id : ℕ) (job : JobRequest F) (radius_km : F) (driver_id : ℕ)
        → pick_next e job_id job radius_km ≡ some driver_id
        → (HashSet.contains driver_id (already_offered e job_id) ≡ false)
          × (any
                (λ en. driver_id == en.0 && is_eligible job.pickup job.category radius_km en)
                e.drivers
              ≡ true)
    unfolding pick_next
    pick_next-is_eligible e job_id job radius_km driver_id p =
        let h = find-any _ _ driver_id p in
        (
          ground (arith, h.0),
          nearest-is_eligible e job.pickup job.category radius_km 32 driver_id h.1,
        )

  -- A driver that the search finds was picked at a radius up to the maximum.
  search_from-found :
      (fuel : ℕ) (radius_km max_radius_km : F) (pick : F → Option ℕ) (driver_id : ℕ)
      → search_from fuel radius_km max_radius_km pick ≡ Search.found driver_id
      → (r : F) × (f.le r (f.add max_radius_km f.epsilon) ≡ true) × (pick r ≡ some driver_id)
  unfolding search_from
  search_from-found zero radius_km max_radius_km pick driver_id p = ground arith
  search_from-found (suc fuel) radius_km max_radius_km pick driver_id p =
      elim (Bool-cases (f.le radius_km (f.add max_radius_km f.epsilon))) [
        | inl t ↦ elim (Option-cases (pick radius_km)) [
          | inl q ↦
              search_from-found fuel (expand_radius_km radius_km max_radius_km) max_radius_km pick
                driver_id (ground (arith, p, t, q))
          | inr (d, q) ↦ (radius_km, t, q ∙ ground (arith, p, t, q))
        ]
        | inr t ↦ ground (arith, p, t)
      ]

  pub search_job-found :
      (job : JobRequest F) (pick : F → Option ℕ) (driver_id : ℕ)
      → search_job job pick ≡ Search.found driver_id
      → (r : F) × (f.le r (
            f.add (f.max job.max_radius_km (f.max job.initial_radius_km (f.decimal 1 1))) f.epsilon)
          ≡ true)
        × (pick r ≡ some driver_id)
  unfolding search_job
  search_job-found job pick driver_id p = search_from-found _ _ _ pick driver_id p
