-- ===== src/Dispatch/Submission.antt =====
-- rust/crates/spatiad-dispatch/src/lib.rs: `submit_job` and the first offer of a job.
use spatiad.Base.{
  ◌≡◌, refl, sym, ◌∙◌, ap, true, ◌&&◌, some, any, Result, ok, err, ◌==◌, nat_eq, arith,
}
use spatiad.Base.HashMap
use spatiad.Platform.{F64, H3}
use spatiad.Types.{JobRequest, OfferRecord, is_pending}
use spatiad.Storage.{StorageBackend}
use spatiad.Core.EventKind.{Codec}
use spatiad.Core.State.{Engine}
use spatiad.Core.Mutations.{register_job, create_offer}
use spatiad.Core.Commands.{append_and_apply, apply_command, apply_register_job}
use spatiad.Core.Journal.Frame.{push_job_event-SameTables}
use spatiad.Core.Search.{Search, search_job}
use spatiad.Core.Search.Selection.{search_job-found}
use spatiad.Core.Search.Reoffer.{radius_bound, get-create_offer}
use spatiad.Dispatch.{DispatchError, first_offer, pick_first, submit_job}
use spatiad.Dispatch.Nearest.{IsTotalOrder, is_nearest, pick_first-is_nearest}

module _ {F S : Type 0} ⦃f : F64 F⦄ ⦃h : H3 F⦄ ⦃c : Codec⦄ ⦃b : StorageBackend F S⦄ where
  -- What a first offer says of the engine before and after.
  pub record IsFirstOffer (e : Engine F S) (job : JobRequest F) (e' : Engine F S)
      (offer : OfferRecord) : Type 0 where
    pub radius_km : F
    pub in_bound : f.le radius_km (radius_bound job) ≡ true
    pub nearest :
        any
          (λ en.
            offer.driver_id == en.0 && is_nearest job.pickup job.category radius_km e.drivers en)
          e.drivers
        ≡ true
    pub of_job : offer.job_id ≡ job.job_id
    pub pending : is_pending offer.status ≡ true
    pub stored : HashMap.get offer.offer_id e'.offers ≡ some offer

  -- A first offer, or a job that is registered and has no new offer.
  abbrev pub IsSubmitted :
      Engine F S → JobRequest F → Engine F S × Result OfferRecord DispatchError → Type 0
  IsSubmitted e job (e', ok offer) = IsFirstOffer e job e' offer
  IsSubmitted e job (e', err _) =
      (HashMap.get job.job_id e'.jobs ≡ some job) × (e'.offers ≡ e.offers)

  register_job-drivers :
      (e : Engine F S) (job : JobRequest F) → (register_job e job).drivers ≡ e.drivers
  unfolding register_job append_and_apply apply_command apply_register_job
  register_job-drivers e job = (push_job_event-SameTables _ job.job_id _).drivers

  get-register_job :
      (e : Engine F S) (job : JobRequest F)
      → (HashMap.get job.job_id (register_job e job).jobs ≡ some job)
        × ((register_job e job).offers ≡ e.offers)
  unfolding register_job append_and_apply apply_command apply_register_job
  get-register_job e job =
      let same = push_job_event-SameTables in
      (
        ap (HashMap.get job.job_id) (same _ job.job_id _).jobs
            ∙ ground (arith, HashMap.get-insert job.job_id job.job_id job e.jobs),
        (same _ job.job_id _).offers,
      )

  first_offer-IsSubmitted :
      (laws : IsTotalOrder F) (e e' : Engine F S) (job : JobRequest F) (s : Search)
      → e'.drivers ≡ e.drivers
      → (HashMap.get job.job_id e'.jobs ≡ some job) × (e'.offers ≡ e.offers)
      → search_job job (pick_first e' job) ≡ s
      → IsSubmitted e job (first_offer e' job s)
  unfolding first_offer create_offer
  first_offer-IsSubmitted laws e e' job (Search.found driver_id) same registered p =
      let at = search_job-found job (pick_first e' job) driver_id p in
      record {
        radius_km = at.0;
        in_bound = at.1;
        nearest = rw (sym same) (pick_first-is_nearest laws e' job at.0 driver_id at.2);
        of_job = refl;
        pending = refl;
        stored = get-create_offer e' job.job_id driver_id job.timeout_seconds;
      }
  first_offer-IsSubmitted laws e e' job Search.exhausted same registered p = registered
  first_offer-IsSubmitted laws e e' job Search.out_of_fuel same registered p = registered

  -- Where `total_cmp` is a total order, a submitted job gets a pending and stored offer to the
  -- nearest of the available drivers of its category within a radius up to the job's largest one,
  -- or else it is registered all the same and no offer changes.
  pub submit_job-IsSubmitted :
      (laws : IsTotalOrder F) (e : Engine F S) (job : JobRequest F)
      → IsSubmitted e job (submit_job e job)
  unfolding submit_job
  submit_job-IsSubmitted laws e job =
      first_offer-IsSubmitted laws e (register_job e job) job _ (register_job-drivers e job)
        (get-register_job e job) refl
