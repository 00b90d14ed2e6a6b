-- ===== src/Dispatch/Exclusivity.antt =====
-- The calls of the service and the rule of one match for each job.
use spatiad.Base.{
  ℕ, ◌≡◌, Bool, false, Option, none, some, Option-cases, inl, inr, List, [], ◌∷◌, any, Result, ok,
  err, nat_eq, Bool-cases,
}
use spatiad.Base.HashMap
use spatiad.Base.HashSet
use spatiad.Base.HashSet.{HashSet}
use spatiad.Platform.{F64, H3}
use spatiad.Types.{JobRequest, MatchResult}
use spatiad.Storage.{StorageBackend, Command}
use spatiad.Core.EventKind.{Codec}
use spatiad.Core.State.{Engine, ExpiredOffer, CoreError}
use spatiad.Core.Mutations.{register_job, record_webhook_delivery_failed, remove_drivers, tick}
use spatiad.Core.Search.{Search, is_accepted_for, create_next_offer_for_job}
use spatiad.Core.Search.Reoffer.{create_next_offer_cases}
use spatiad.Core.Offers
use spatiad.Core.Offers.{offer_job_id}
use spatiad.Core.Offers.Exclusive.{IsExclusive}
use spatiad.Core.Offers.Matching.{
  append_and_apply-IsExclusive, handle_offer_response-IsExclusive, expire_loop-IsExclusive,
  create_offer-unmatched,
}
use spatiad.Dispatch.{
  submit_job, reoffer_loop, expire_pending_offers_for_driver, expire_pending_offers_global,
  handle_offer_response, first_offer, reoffer, after_response, reoffer_expired,
}
use spatiad.Core.Commands.{append_and_apply, apply_command, apply_register_job}
use spatiad.Core.Journal.Frame.{push_job_event-SameTables}

module _ {F S : Type 0} ⦃f : F64 F⦄ ⦃h : H3 F⦄ ⦃c : Codec⦄ ⦃b : StorageBackend F S⦄ where
  next_offer-IsExclusive :
      (e : Engine F S) (job_id : ℕ)
      → IsExclusive e.offers
      → IsExclusive (create_next_offer_for_job e job_id).0.offers
  next_offer-IsExclusive e job_id x = elim (create_next_offer_cases e job_id) [
    | inl r ↦ rw r x
    | inr (job, driver_id, w, r) ↦
        rw r (create_offer-unmatched e job_id driver_id job.timeout_seconds w.unmatched x)
  ]

  first_offer-IsExclusive :
      (e : Engine F S) (job : JobRequest F) (s : Search)
      → any (is_accepted_for job.job_id) (HashMap.values e.offers) ≡ false
      → IsExclusive e.offers
      → IsExclusive (first_offer e job s).0.offers
  unfolding first_offer
  first_offer-IsExclusive e job (Search.found driver_id) free x =
      create_offer-unmatched e job.job_id driver_id job.timeout_seconds free x
  first_offer-IsExclusive e job Search.exhausted free x = x
  first_offer-IsExclusive e job Search.out_of_fuel free x = x

  register_job-offers :
      (e : Engine F S) (job : JobRequest F) → (register_job e job).offers ≡ e.offers
  unfolding register_job append_and_apply apply_command apply_register_job
  register_job-offers e job = (push_job_event-SameTables _ job.job_id _).offers

  pub submit_job-IsExclusive :
      (e : Engine F S) (job : JobRequest F)
      → any (is_accepted_for job.job_id) (HashMap.values e.offers) ≡ false
      → IsExclusive e.offers
      → IsExclusive (submit_job e job).0.offers
  unfolding submit_job
  submit_job-IsExclusive e job free x =
      first_offer-IsExclusive (register_job e job) job _ (rw (register_job-offers e job) free)
        (rw (register_job-offers e job) x)

  reoffer-IsExclusive :
      (e : Engine F S) (seen_jobs : HashSet ℕ) (job_id : ℕ)
      → IsExclusive e.offers
      → IsExclusive (reoffer e seen_jobs job_id).0.offers
  unfolding reoffer
  reoffer-IsExclusive e seen_jobs job_id x = elim (Bool-cases (HashSet.contains job_id seen_jobs)) [
    | inl p ↦ rw (p, reoffer) x
    | inr p ↦ rw (p, reoffer) (next_offer-IsExclusive e job_id x)
  ]

  reoffer_loop-IsExclusive :
      (e : Engine F S) (seen_jobs : HashSet ℕ) (items : List ExpiredOffer)
      → IsExclusive e.offers
      → IsExclusive (reoffer_loop e seen_jobs items).0.offers
  unfolding reoffer_loop
  reoffer_loop-IsExclusive e seen_jobs [] x = x
  reoffer_loop-IsExclusive e seen_jobs (item ∷ items) x =
      reoffer_loop-IsExclusive (reoffer e seen_jobs item.job_id).0
        (HashSet.insert item.job_id seen_jobs) items (reoffer-IsExclusive e seen_jobs item.job_id x)

  after_response-IsExclusive :
      (job_id : ℕ) (e : Engine F S) (r : Result (Option MatchResult) CoreError)
      → IsExclusive e.offers
      → IsExclusive (after_response job_id (e, r)).0.offers
  unfolding after_response
  after_response-IsExclusive job_id e (err _) x = x
  after_response-IsExclusive job_id e (ok (some m)) x = x
  after_response-IsExclusive job_id e (ok none) x = next_offer-IsExclusive e job_id x

  pub response-IsExclusive :
      (e : Engine F S) (offer_id : ℕ) (accepted : Bool)
      → IsExclusive e.offers
      → IsExclusive (handle_offer_response e offer_id accepted).0.offers
  unfolding handle_offer_response
  response-IsExclusive e offer_id accepted x = elim (Option-cases (offer_job_id e offer_id)) [
    | inl p ↦ rw (p, handle_offer_response) x
    | inr (job_id, p) ↦
        rw (p, handle_offer_response)
          (after_response-IsExclusive job_id _ _
            (handle_offer_response-IsExclusive e offer_id accepted x))
  ]

  pub expire_for_driver-IsExclusive :
      (e : Engine F S) (driver_id : ℕ)
      → IsExclusive e.offers
      → IsExclusive (expire_pending_offers_for_driver e driver_id).0.offers
  unfolding expire_pending_offers_for_driver Offers.expire_pending_offers_for_driver reoffer_expired
  expire_for_driver-IsExclusive e driver_id x =
      reoffer_loop-IsExclusive _ [] _ (expire_loop-IsExclusive (tick e) _ x)

  pub expire_global-IsExclusive :
      (e : Engine F S)
      → IsExclusive e.offers
      → IsExclusive (expire_pending_offers_global e).0.offers
  unfolding expire_pending_offers_global Offers.expire_pending_offers_global reoffer_expired
  expire_global-IsExclusive e x =
      reoffer_loop-IsExclusive _ [] _ (expire_loop-IsExclusive (tick e) _ x)

  pub webhook_failed-IsExclusive :
      (e : Engine F S) (job_id offer_id : ℕ)
      → IsExclusive e.offers
      → IsExclusive (record_webhook_delivery_failed e job_id offer_id).offers
  unfolding record_webhook_delivery_failed
  webhook_failed-IsExclusive e job_id offer_id x =
      elim (Bool-cases (HashMap.contains_key job_id e.jobs)) [
        | inl p ↦ rw (p, record_webhook_delivery_failed) (append_and_apply-IsExclusive e _ tt x)
        | inr p ↦ rw (p, record_webhook_delivery_failed) x
      ]

  pub remove_drivers-IsExclusive :
      (e : Engine F S) (ids : List ℕ)
      → IsExclusive e.offers
      → IsExclusive (remove_drivers e ids).offers
  unfolding remove_drivers
  remove_drivers-IsExclusive e [] x = x
  remove_drivers-IsExclusive e (driver_id ∷ ids) x =
      remove_drivers-IsExclusive (append_and_apply e (Command.remove_driver driver_id)) ids
        (append_and_apply-IsExclusive e (Command.remove_driver driver_id) tt x)
