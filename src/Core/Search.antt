-- ===== src/Core/Search.antt =====
-- The search for the next driver of a job: distances, candidates and the growing radius.
pub mod Selection
pub mod Reoffer
pub mod Termination
use spatiad.Base.{
  ℕ, zero, suc, Bool, not, ◌&&◌, ◌||◌, Option, none, some, List, [], ◌∷◌, map, filter, filter_map,
  any, find, take, ◌==◌, nat_eq, if◌then◌else◌,
}
use spatiad.Base.Text.{Text, eq_ignore_ascii_case}
use spatiad.Base.HashMap
use spatiad.Base.HashSet
use spatiad.Base.HashSet.{HashSet}
use spatiad.Platform.{F64, H3}
use spatiad.Types.{
  Coordinates, DriverSnapshot, JobRequest, OfferRecord, is_available, is_pending, is_accepted,
}
use spatiad.Storage.{StorageBackend}
use spatiad.Core.EventKind.{Codec}
use spatiad.Core.State.{Engine}
use spatiad.Core.Mutations.{create_offer}

-- `break` and the end of the loop give `exhausted`; `out_of_fuel` is a search that still runs.
pub data Search : Type 0 where
  found : ℕ → Search
  exhausted out_of_fuel : Search

-- The rounds that a search is given.
abbrev pub search_rounds : ℕ
search_rounds = 1024

module _ {F : Type 0} ⦃f : F64 F⦄ where
  -- `x.powi(2)`.
  abbrev square : F → F
  square x = f.mul x x

  unfoldable pub haversine_km : Coordinates F → Coordinates F → F
  haversine_km a b =
      let earth_radius_km = f.decimal 6371 0 in
      let a_lat = f.to_radians a.latitude in
      let a_lon = f.to_radians a.longitude in
      let b_lat = f.to_radians b.latitude in
      let b_lon = f.to_radians b.longitude in
      let d_lat = f.sub b_lat a_lat in
      let d_lon = f.sub b_lon a_lon in
      let s = f.add (square (f.sin (f.div d_lat (f.decimal 2 0)))) (
        f.mul (f.mul (f.cos a_lat) (f.cos b_lat)) (square (f.sin (f.div d_lon (f.decimal 2 0))))) in
      f.mul (f.mul (f.decimal 2 0) earth_radius_km) (f.asin (f.sqrt s))

  unfoldable pub expand_radius_km : F → F → F
  expand_radius_km current_radius_km max_radius_km =
      f.min (f.add current_radius_km (f.decimal 2 0)) (f.add max_radius_km (f.decimal 1 0))

  -- The closure of `filter_map`.
  unfoldable pub candidate : Coordinates F → Text → F → ℕ × DriverSnapshot F → Option (ℕ × F)
  candidate pickup category radius_km (driver_id, driver) =
      if not (is_available driver.status) || not (eq_ignore_ascii_case driver.category category)
      then none
      else if f.le (haversine_km pickup driver.position) radius_km
      then some (driver_id, haversine_km pickup driver.position)
      else none

  -- `sort_by(|a, b| a.1.total_cmp(&b.1))`: the stable sort by distance.
  unfoldable pub insert_sorted : ℕ × F → List (ℕ × F) → List (ℕ × F)
  insert_sorted x [] = x ∷ []
  insert_sorted x (y ∷ ys) =
      let rest = insert_sorted x ys in if f.total_le x.1 y.1 then x ∷ y ∷ ys else y ∷ rest

  unfoldable pub sort_by_distance : List (ℕ × F) → List (ℕ × F)
  sort_by_distance [] = []
  sort_by_distance (x ∷ xs) = insert_sorted x (sort_by_distance xs)

  -- The loop over the radius, for a choice of driver at each radius.
  unfoldable pub search_from : ℕ → F → F → (F → Option ℕ) → Search
  search_from zero radius_km max_radius_km pick = Search.out_of_fuel
  search_from (suc fuel) radius_km max_radius_km pick =
      let next = expand_radius_km radius_km max_radius_km in
      let rest = search_from fuel next max_radius_km pick in
      if f.le radius_km (f.add max_radius_km f.epsilon)
      then elim (pick radius_km) [
        | some driver_id ↦ Search.found driver_id
        | none ↦ if f.lt max_radius_km next then Search.exhausted else rest
      ]
      else Search.exhausted

  -- The loop with its initial values.
  unfoldable pub search_job : JobRequest F → (F → Option ℕ) → Search
  search_job job pick =
      let radius_km = f.max job.initial_radius_km (f.decimal 1 1) in
      search_from search_rounds radius_km (f.max job.max_radius_km radius_km) pick

  module _ {S : Type 0} where
    unfoldable pub nearest_candidates_in_radius : Engine F S → Coordinates F → Text → F → ℕ → List ℕ
    nearest_candidates_in_radius e pickup category radius_km limit =
        map (λ x. x.0)
          (take limit
            (sort_by_distance (filter_map (candidate pickup category radius_km) e.drivers)))

-- The tests of `create_next_offer_for_job` over the offers.
abbrev pub is_accepted_for : ℕ → OfferRecord → Bool
is_accepted_for job_id o = o.job_id == job_id && is_accepted o.status

abbrev pub is_pending_for : ℕ → OfferRecord → Bool
is_pending_for job_id o = o.job_id == job_id && is_pending o.status

-- The drivers that had an offer for the job, whatever became of it.
unfoldable pub already_offered : {F S : Type 0} → Engine F S → ℕ → HashSet ℕ
already_offered e job_id =
    map (λ o. o.driver_id) (filter (λ o. o.job_id == job_id) (HashMap.values e.offers))

module _ {F S : Type 0} ⦃f : F64 F⦄ where
  -- The first of the 32 nearest candidates that was not offered the job.
  unfoldable pub pick_next : Engine F S → ℕ → JobRequest F → F → Option ℕ
  pick_next e job_id job radius_km =
      find (λ driver_id. not (HashSet.contains driver_id (already_offered e job_id)))
        (nearest_candidates_in_radius e job.pickup job.category radius_km 32)

module _ {F S : Type 0} ⦃f : F64 F⦄ ⦃h : H3 F⦄ ⦃c : Codec⦄ ⦃b : StorageBackend F S⦄ where
  offer_found : Engine F S → JobRequest F → ℕ → Search → Engine F S × Option OfferRecord
  offer_found e job job_id (Search.found driver_id) =
      let (e', offer) = create_offer e job_id driver_id job.timeout_seconds in (e', some offer)
  offer_found e job job_id Search.exhausted = (e, none)
  offer_found e job job_id Search.out_of_fuel = (e, none)

  unfoldable pub create_next_offer_for_job : Engine F S → ℕ → Engine F S × Option OfferRecord
  unfolding offer_found
  create_next_offer_for_job e job_id = elim (HashMap.get job_id e.jobs) [
    | none ↦ (e, none)
    | some job ↦
        if HashSet.contains job_id e.cancelled_jobs
        then (e, none)
        else if any (is_accepted_for job_id) (HashMap.values e.offers)
        then (e, none)
        else if any (is_pending_for job_id) (HashMap.values e.offers)
        then (e, none)
        else offer_found e job job_id (search_job job (pick_next e job_id job))
  ]
