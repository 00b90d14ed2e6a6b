-- ===== src/Core/Search/Reoffer.antt =====
-- `create_next_offer_for_job`.
use spatiad.Base.{
  ℕ, ◌≡◌, refl, ◌∙◌, true, false, ◌&&◌, Option, none, some, Option-cases, Bool-cases, inl, inr, ◌⊎◌,
  any, ◌==◌, nat_eq, arith,
}
use spatiad.Base.HashMap
use spatiad.Base.HashSet
use spatiad.Platform.{F64, H3}
use spatiad.Types.{JobRequest, OfferRecord, is_pending}
use spatiad.Storage.{StorageBackend}
use spatiad.Core.EventKind.{Codec}
use spatiad.Core.State.{Engine}
use spatiad.Core.Mutations.{create_offer}
use spatiad.Core.Journal.Frame.{push_job_event-SameTables}
use spatiad.Core.Commands.{append_and_apply, apply_command, apply_create_offer}
use spatiad.Core.Search.{
  Search, search_job, pick_next, already_offered, offer_found, is_accepted_for, is_pending_for,
  create_next_offer_for_job,
}
use spatiad.Core.Search.Selection.{is_eligible, pick_next-is_eligible, search_job-found}

-- The job's largest search radius, as the search computes it.
abbrev pub radius_bound : {F : Type 0} ⦃f : F64 F⦄ → JobRequest F → F
radius_bound ⦃f⦄ job =
    f.add (f.max job.max_radius_km (f.max job.initial_radius_km (f.decimal 1 1))) f.epsilon

module _ {F S : Type 0} ⦃f : F64 F⦄ ⦃h : H3 F⦄ ⦃c : Codec⦄ ⦃b : StorageBackend F S⦄ where
  -- What stands before a new offer of the job to the driver.
  pub record IsOfferable (e : Engine F S) (job_id : ℕ) (job : JobRequest F) (driver_id : ℕ)
      : Type 0 where
    pub known : HashMap.get job_id e.jobs ≡ some job
    pub running : HashSet.contains job_id e.cancelled_jobs ≡ false
    pub unmatched : any (is_accepted_for job_id) (HashMap.values e.offers) ≡ false
    pub idle : any (is_pending_for job_id) (HashMap.values e.offers) ≡ false
    pub found : search_job job (pick_next e job_id job) ≡ Search.found driver_id

  -- What a new offer of the job says of the engine before and after.
  pub record IsNextOffer (e : Engine F S) (job_id : ℕ) (e' : Engine F S) (offer : OfferRecord)
      : Type 0 where
    pub job : JobRequest F
    pub offerable : IsOfferable e job_id job offer.driver_id
    pub fresh : HashSet.contains offer.driver_id (already_offered e job_id) ≡ false
    pub radius_km : F
    pub in_bound : f.le radius_km (radius_bound job) ≡ true
    pub eligible :
        any
          (λ en. offer.driver_id == en.0 && is_eligible job.pickup job.category radius_km en)
          e.drivers
        ≡ true
    pub of_job : offer.job_id ≡ job_id
    pub pending : is_pending offer.status ≡ true
    pub stored : HashMap.get offer.offer_id e'.offers ≡ some offer

  offer_found_cases :
      (e : Engine F S) (job : JobRequest F) (job_id : ℕ) (s : Search)
      → (offer_found e job job_id s ≡ (e, none))
        ⊎ ((driver_id : ℕ) × (s ≡ Search.found driver_id)
            × (offer_found e job job_id s ≡ (
              (create_offer e job_id driver_id job.timeout_seconds).0,
              some (create_offer e job_id driver_id job.timeout_seconds).1,
            )))
  unfolding offer_found
  offer_found_cases e job job_id (Search.found driver_id) = inr (driver_id, refl, refl)
  offer_found_cases e job job_id Search.exhausted = inl refl
  offer_found_cases e job job_id Search.out_of_fuel = inl refl

  -- A job that is known, whatever the tests on it give.
  known_cases :
      (e : Engine F S) (job_id : ℕ) (job : JobRequest F)
      → HashMap.get job_id e.jobs ≡ some job
      → (create_next_offer_for_job e job_id ≡ (e, none))
        ⊎ ((HashSet.contains job_id e.cancelled_jobs ≡ false)
            × (any (is_accepted_for job_id) (HashMap.values e.offers) ≡ false)
            × (any (is_pending_for job_id) (HashMap.values e.offers) ≡ false)
            × (create_next_offer_for_job e job_id
                ≡ offer_found e job job_id (search_job job (pick_next e job_id job))))
  unfolding create_next_offer_for_job
  known_cases e job_id job p = elim (Bool-cases (HashSet.contains job_id e.cancelled_jobs)) [
    | inl r ↦ inl (rw (p, create_next_offer_for_job) (rw r))
    | inr r ↦ elim (Bool-cases (any (is_accepted_for job_id) (HashMap.values e.offers))) [
      | inl u ↦ inl (rw (p, create_next_offer_for_job) (rw (r, u)))
      | inr u ↦ elim (Bool-cases (any (is_pending_for job_id) (HashMap.values e.offers))) [
        | inl i ↦ inl (rw (p, create_next_offer_for_job) (rw (r, u, i)))
        | inr i ↦ inr (r, u, i, rw (p, create_next_offer_for_job) (rw (r, u, i)))
      ]
    ]
  ]

  -- An offer made, or nothing done.
  pub create_next_offer_cases :
      (e : Engine F S) (job_id : ℕ)
      → (create_next_offer_for_job e job_id ≡ (e, none))
        ⊎ ((job : JobRequest F) × (driver_id : ℕ) × IsOfferable e job_id job driver_id
            × (create_next_offer_for_job e job_id ≡ (
              (create_offer e job_id driver_id job.timeout_seconds).0,
              some (create_offer e job_id driver_id job.timeout_seconds).1,
            )))
  create_next_offer_cases e job_id = elim (Option-cases (HashMap.get job_id e.jobs)) [
    | inl p ↦ inl (unfold create_next_offer_for_job in rw (p, create_next_offer_for_job) refl)
    | inr (job, p) ↦ elim (known_cases e job_id job p) [
      | inl r ↦ inl r
      | inr t ↦ elim (offer_found_cases e job job_id (search_job job (pick_next e job_id job))) [
        | inl r ↦ inl (t.3 ∙ r)
        | inr (driver_id, q, r) ↦ inr (
          job,
          driver_id,
          record { known = p; running = t.0; unmatched = t.1; idle = t.2; found = q },
          t.3 ∙ r,
        )
      ]
    ]
  ]

  pub get-create_offer :
      (e : Engine F S) (job_id driver_id timeout_seconds : ℕ)
      → HashMap.get
          (create_offer e job_id driver_id timeout_seconds).1.offer_id
          (create_offer e job_id driver_id timeout_seconds).0.offers
        ≡ some (create_offer e job_id driver_id timeout_seconds).1
  unfolding create_offer append_and_apply apply_command apply_create_offer
  get-create_offer e job_id driver_id timeout_seconds =
      let offer = (create_offer e job_id driver_id timeout_seconds).1 in
      rw ((push_job_event-SameTables _ job_id _).offers)
        (ground (arith, HashMap.get-insert offer.offer_id offer.offer_id offer e.offers))

  made-IsNextOffer :
      (e : Engine F S) (job_id : ℕ) (job : JobRequest F) (driver_id : ℕ)
      → IsOfferable e job_id job driver_id
      → let (e', offer) = create_offer e job_id driver_id job.timeout_seconds in
        IsNextOffer e job_id e' offer
  unfolding create_offer
  made-IsNextOffer e job_id job driver_id w =
      let at = search_job-found job (pick_next e job_id job) driver_id w.found in
      let picked = pick_next-is_eligible e job_id job at.0 driver_id at.2 in
      record {
        job = job;
        offerable = w;
        fresh = picked.0;
        radius_km = at.0;
        in_bound = at.1;
        eligible = picked.1;
        of_job = refl;
        pending = refl;
        stored = get-create_offer e job_id driver_id job.timeout_seconds;
      }

  abbrev pub IsNextOfferOrSame : Engine F S → ℕ → Engine F S × Option OfferRecord → Type 0
  IsNextOfferOrSame e job_id (e', none) = e' ≡ e
  IsNextOfferOrSame e job_id (e', some offer) = IsNextOffer e job_id e' offer

  -- If `create_next_offer_for_job` makes an offer, then the job is known and not cancelled, it has no
  -- accepted and no pending offer, the driver of the offer had no offer for this job before and is
  -- registered, available, of the job's category and within a radius up to the job's largest one, and
  -- the offer is pending, for this job, and stored. Otherwise the engine is as it was.
  pub create_next_offer_for_job-IsNextOffer :
      (e : Engine F S) (job_id : ℕ)
      → IsNextOfferOrSame e job_id (create_next_offer_for_job e job_id)
  create_next_offer_for_job-IsNextOffer e job_id = elim (create_next_offer_cases e job_id) [
    | inl r ↦ rw r refl
    | inr (job, driver_id, w, r) ↦ rw r (made-IsNextOffer e job_id job driver_id w)
  ]
