-- ===== src/Dispatch/Logging.antt =====
-- The calls of the service change the engine by logged commands alone.
use spatiad.Base.{
  ℕ, Bool, Option, none, some, Option-cases, inl, inr, List, [], ◌∷◌, Result, ok, err, nat_eq,
  Bool-cases,
}
use spatiad.Base.HashMap
use spatiad.Base.HashSet
use spatiad.Base.HashSet.{HashSet}
use spatiad.Platform.{F64, H3, utc_now, after_now, after_v4}
use spatiad.Types.{JobRequest, MatchResult}
use spatiad.Storage.{StorageBackend, Command}
use spatiad.Core.EventKind.{Codec}
use spatiad.Core.State.{Engine, ExpiredOffer, CoreError}
use spatiad.Core.Commands.{append_and_apply}
use spatiad.Core.Mutations
use spatiad.Core.Mutations.{register_job, create_offer, remove_drivers, tick}
use spatiad.Core.Search.{Search, create_next_offer_for_job}
use spatiad.Core.Search.Reoffer.{create_next_offer_cases}
use spatiad.Core.Offers
use spatiad.Core.Offers.{offer_job_id, expire_loop, picked, is_overdue, is_overdue_for}
use spatiad.Core.Offers.Logging.{
  response-IsLogged as engine_response-IsLogged, expire_loop-IsLogged,
}
use spatiad.Core.Recovery.Logged.{
  IsLogged, unchanged, one_command, IsLogged-and, read_first, now_one,
}
use spatiad.Dispatch.{
  submit_job, reoffer_loop, expire_pending_offers_for_driver, expire_pending_offers_global,
  handle_offer_response, first_offer, reoffer, after_response, reoffer_expired,
}

module _ {F S : Type 0} ⦃f : F64 F⦄ ⦃h : H3 F⦄ ⦃c : Codec⦄ ⦃b : StorageBackend F S⦄ where
  create_offer-IsLogged :
      (e : Engine F S) (job_id driver_id timeout_seconds : ℕ)
      → IsLogged e (create_offer e job_id driver_id timeout_seconds).0
  unfolding create_offer
  create_offer-IsLogged e job_id driver_id timeout_seconds =
      one_command e (after_v4 (after_now e.world)) _

  next_offer-IsLogged :
      (e : Engine F S) (job_id : ℕ) → IsLogged e (create_next_offer_for_job e job_id).0
  next_offer-IsLogged e job_id = elim (create_next_offer_cases e job_id) [
    | inl r ↦ rw r (unchanged e)
    | inr (job, driver_id, w, r) ↦
        rw r (create_offer-IsLogged e job_id driver_id job.timeout_seconds)
  ]

  first_offer-IsLogged :
      (e : Engine F S) (job : JobRequest F) (s : Search) → IsLogged e (first_offer e job s).0
  unfolding first_offer
  first_offer-IsLogged e job (Search.found driver_id) =
      create_offer-IsLogged e job.job_id driver_id job.timeout_seconds
  first_offer-IsLogged e job Search.exhausted = unchanged e
  first_offer-IsLogged e job Search.out_of_fuel = unchanged e

  pub submit_job-IsLogged : (e : Engine F S) (job : JobRequest F) → IsLogged e (submit_job e job).0
  unfolding submit_job register_job
  submit_job-IsLogged e job =
      IsLogged-and e (register_job e job) _ (now_one e _)
        (first_offer-IsLogged (register_job e job) job _)

  reoffer-IsLogged :
      (e : Engine F S) (seen_jobs : HashSet ℕ) (job_id : ℕ)
      → IsLogged e (reoffer e seen_jobs job_id).0
  unfolding reoffer
  reoffer-IsLogged e seen_jobs job_id = elim (Bool-cases (HashSet.contains job_id seen_jobs)) [
    | inl p ↦ rw (p, reoffer) (unchanged e)
    | inr p ↦ rw (p, reoffer) (next_offer-IsLogged e job_id)
  ]

  reoffer_loop-IsLogged :
      (e : Engine F S) (seen_jobs : HashSet ℕ) (items : List ExpiredOffer)
      → IsLogged e (reoffer_loop e seen_jobs items).0
  unfolding reoffer_loop
  reoffer_loop-IsLogged e seen_jobs [] = unchanged e
  reoffer_loop-IsLogged e seen_jobs (item ∷ items) =
      IsLogged-and e (reoffer e seen_jobs item.job_id).0 _
        (reoffer-IsLogged e seen_jobs item.job_id)
        (reoffer_loop-IsLogged (reoffer e seen_jobs item.job_id).0
          (HashSet.insert item.job_id seen_jobs) items)

  after_response-IsLogged :
      (job_id : ℕ) (e : Engine F S) (r : Result (Option MatchResult) CoreError)
      → IsLogged e (after_response job_id (e, r)).0
  unfolding after_response
  after_response-IsLogged job_id e (err _) = unchanged e
  after_response-IsLogged job_id e (ok (some m)) = unchanged e
  after_response-IsLogged job_id e (ok none) = next_offer-IsLogged e job_id

  pub response-IsLogged :
      (e : Engine F S) (offer_id : ℕ) (accepted : Bool)
      → IsLogged e (handle_offer_response e offer_id accepted).0
  unfolding handle_offer_response
  response-IsLogged e offer_id accepted = elim (Option-cases (offer_job_id e offer_id)) [
    | inl p ↦ rw (p, handle_offer_response) (unchanged e)
    | inr (job_id, p) ↦
        let r = Offers.handle_offer_response e offer_id accepted in
        rw (p, handle_offer_response)
          (IsLogged-and e r.0 _ (engine_response-IsLogged e offer_id accepted)
            (after_response-IsLogged job_id r.0 r.1))
  ]

  pub expire_for_driver-IsLogged :
      (e : Engine F S) (driver_id : ℕ) → IsLogged e (expire_pending_offers_for_driver e driver_id).0
  unfolding expire_pending_offers_for_driver Offers.expire_pending_offers_for_driver reoffer_expired
  expire_for_driver-IsLogged e driver_id =
      let ids = picked (is_overdue_for driver_id (utc_now e.world)) e in
      let marked = expire_loop (tick e) ids in
      IsLogged-and e marked.0 _
        (read_first e (after_now e.world) marked.0 (expire_loop-IsLogged (tick e) ids))
        (reoffer_loop-IsLogged marked.0 [] marked.1)

  pub expire_global-IsLogged : (e : Engine F S) → IsLogged e (expire_pending_offers_global e).0
  unfolding expire_pending_offers_global Offers.expire_pending_offers_global reoffer_expired
  expire_global-IsLogged e =
      let ids = picked (is_overdue (utc_now e.world)) e in
      let marked = expire_loop (tick e) ids in
      IsLogged-and e marked.0 _
        (read_first e (after_now e.world) marked.0 (expire_loop-IsLogged (tick e) ids))
        (reoffer_loop-IsLogged marked.0 [] marked.1)

  remove_drivers-IsLogged : (e : Engine F S) (ids : List ℕ) → IsLogged e (remove_drivers e ids)
  unfolding remove_drivers
  remove_drivers-IsLogged e [] = unchanged e
  remove_drivers-IsLogged e (driver_id ∷ ids) =
      let removed = append_and_apply e (Command.remove_driver driver_id) in
      IsLogged-and e removed _ (now_one e _) (remove_drivers-IsLogged removed ids)

  pub stale-IsLogged :
      (e : Engine F S) (ttl : ℕ) → IsLogged e (Mutations.expire_stale_drivers e ttl).0
  unfolding Mutations.expire_stale_drivers
  stale-IsLogged e ttl =
      read_first e (after_now e.world) _
        (remove_drivers-IsLogged (tick e) (Mutations.expire_stale_drivers e ttl).1)

  pub cancel_job-IsLogged :
      (e : Engine F S) (job_id : ℕ) → IsLogged e (Mutations.cancel_job e job_id).0
  unfolding Mutations.cancel_job
  cancel_job-IsLogged e job_id = elim (Bool-cases (HashMap.contains_key job_id e.jobs)) [
    | inl p ↦ rw (p, Mutations.cancel_job) (now_one e _)
    | inr p ↦ rw (p, Mutations.cancel_job) (unchanged e)
  ]

  pub webhook_failed-IsLogged :
      (e : Engine F S) (job_id offer_id : ℕ)
      → IsLogged e (Mutations.record_webhook_delivery_failed e job_id offer_id)
  unfolding Mutations.record_webhook_delivery_failed
  webhook_failed-IsLogged e job_id offer_id =
      elim (Bool-cases (HashMap.contains_key job_id e.jobs)) [
        | inl p ↦ rw (p, Mutations.record_webhook_delivery_failed) (now_one e _)
        | inr p ↦ rw (p, Mutations.record_webhook_delivery_failed) (unchanged e)
      ]
