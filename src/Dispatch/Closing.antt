-- ===== src/Dispatch/Closing.antt =====
-- A job that is cancelled, under the calls of the service.
use mathlib.Core.Option
use spatiad.Base.{
  ℕ, ◌≡◌, refl, Bool, true, false, Option, none, some, Option-cases, inl, inr, List, [], ◌∷◌,
  Result, ok, err, nat_eq, nat_beq, Bool-cases, arith,
}
use spatiad.Base.HashMap
use spatiad.Base.HashSet
use spatiad.Base.HashSet.{HashSet}
use spatiad.Platform.{F64, H3}
use spatiad.Types.{JobRequest, MatchResult}
use spatiad.Storage.{StorageBackend}
use spatiad.Core.EventKind.{Codec}
use spatiad.Core.State.{Engine, ExpiredOffer, CoreError}
use spatiad.Core.Mutations
use spatiad.Core.Mutations.{register_job, tick, upsert_driver_location, expire_stale_drivers}
use spatiad.Core.Commands.{is_open, cancel_if}
use spatiad.Core.Search.{Search, create_next_offer_for_job}
use spatiad.Core.Offers
use spatiad.Core.Offers.{offer_job_id}
use spatiad.Core.Offers.Responses.{response-closed}
use spatiad.Core.Offers.Locking.{
  IsClosed, get-cancel_job_known, cancelled-cancel_job, no_offer-cancelled,
}
use spatiad.Core.Offers.Closing.{
  IsSettled, is_open-IsSettled, found-IsSettled, IsShut, append_and_apply-IsShut,
}
use spatiad.Core.Offers.Closed.{
  create_offer-IsShut, next_offer-IsShut, handle_offer_response-IsShut, cancel_job-IsShut,
  cancel_offer-IsShut, expire_loop-IsShut, register_job-IsShut, webhook_failed-IsShut,
  remove_drivers-IsShut,
}
use spatiad.Dispatch.{
  submit_job, reoffer_loop, expire_pending_offers_for_driver, expire_pending_offers_global,
  handle_offer_response, first_offer, reoffer, after_response, reoffer_expired, cancel_offer,
}
use spatiad.Dispatch.Views.{cancel_job}
use spatiad.Dispatch.Run.{Step}

module _ {F S : Type 0} ⦃f : F64 F⦄ ⦃h : H3 F⦄ ⦃c : Codec⦄ ⦃b : StorageBackend F S⦄
    (job_id : ℕ) where
  first_offer-IsShut :
      (e : Engine F S) (job : JobRequest F) (s : Search)
      → nat_beq job.job_id job_id ≡ false
      → IsShut job_id e
      → IsShut job_id (first_offer e job s).0
  unfolding first_offer
  first_offer-IsShut e job (Search.found driver_id) q x =
      create_offer-IsShut job_id e job.job_id driver_id job.timeout_seconds q x
  first_offer-IsShut e job Search.exhausted q x = x
  first_offer-IsShut e job Search.out_of_fuel q x = x

  submit_job-IsShut :
      (e : Engine F S) (job : JobRequest F)
      → nat_beq job.job_id job_id ≡ false
      → IsShut job_id e
      → IsShut job_id (submit_job e job).0
  unfolding submit_job
  submit_job-IsShut e job q x =
      first_offer-IsShut (register_job e job) job _ q
        (register_job-IsShut job_id e job (ground (arith, q)) x)

  reoffer-IsShut :
      (e : Engine F S) (seen_jobs : HashSet ℕ) (other : ℕ)
      → IsShut job_id e
      → IsShut job_id (reoffer e seen_jobs other).0
  unfolding reoffer
  reoffer-IsShut e seen_jobs other x = elim (Bool-cases (HashSet.contains other seen_jobs)) [
    | inl p ↦ rw (p, reoffer) x
    | inr p ↦ rw (p, reoffer) (next_offer-IsShut job_id e other x)
  ]

  reoffer_loop-IsShut :
      (e : Engine F S) (seen_jobs : HashSet ℕ) (items : List ExpiredOffer)
      → IsShut job_id e
      → IsShut job_id (reoffer_loop e seen_jobs items).0
  unfolding reoffer_loop
  reoffer_loop-IsShut e seen_jobs [] x = x
  reoffer_loop-IsShut e seen_jobs (item ∷ items) x =
      reoffer_loop-IsShut (reoffer e seen_jobs item.job_id).0 (HashSet.insert item.job_id seen_jobs)
        items (reoffer-IsShut e seen_jobs item.job_id x)

  after_response-IsShut :
      (other : ℕ) (e : Engine F S) (r : Result (Option MatchResult) CoreError)
      → IsShut job_id e
      → IsShut job_id (after_response other (e, r)).0
  unfolding after_response
  after_response-IsShut other e (err _) x = x
  after_response-IsShut other e (ok (some m)) x = x
  after_response-IsShut other e (ok none) x = next_offer-IsShut job_id e other x

  response-IsShut :
      (e : Engine F S) (offer_id : ℕ) (accepted : Bool)
      → IsShut job_id e
      → IsShut job_id (handle_offer_response e offer_id accepted).0
  unfolding handle_offer_response
  response-IsShut e offer_id accepted x = elim (Option-cases (offer_job_id e offer_id)) [
    | inl p ↦ rw (p, handle_offer_response) x
    | inr (other, p) ↦
        rw (p, handle_offer_response)
          (after_response-IsShut other _ _
            (handle_offer_response-IsShut job_id e offer_id accepted x))
  ]

  ticked : (e : Engine F S) → IsShut job_id e → IsShut job_id (tick e)
  ticked e x = record { cancelled = x.cancelled; settled = x.settled }

  -- The call submits no job of this id.
  abbrev pub IsOther : {e e' : Engine F S} → Step e e' → Type 0
  IsOther (Step.submit _ job _) = nat_beq job.job_id job_id ≡ false
  IsOther _ = Unit {0}

  Step-IsShut : {e e' : Engine F S} (s : Step e e') → IsOther s → IsShut job_id e → IsShut job_id e'
  unfolding upsert_driver_location expire_stale_drivers cancel_offer
      expire_pending_offers_for_driver Offers.expire_pending_offers_for_driver reoffer_expired
      expire_pending_offers_global Offers.expire_pending_offers_global
  Step-IsShut (Step.upsert_location e _ _ _ _) q x =
      append_and_apply-IsShut job_id _ _ tt (ticked e x)
  Step-IsShut (Step.stale e ttl) q x = remove_drivers-IsShut job_id _ _ (ticked e x)
  Step-IsShut (Step.submit e job free) q x = submit_job-IsShut e job q x
  Step-IsShut (Step.respond e offer_id accepted) q x = response-IsShut e offer_id accepted x
  Step-IsShut (Step.cancel e other) q x = cancel_job-IsShut job_id e other x
  Step-IsShut (Step.withdraw e offer_id) q x = cancel_offer-IsShut job_id e offer_id x
  Step-IsShut (Step.expire_for_driver e driver_id) q x =
      reoffer_loop-IsShut _ [] _ (expire_loop-IsShut job_id (tick e) _ (ticked e x))
  Step-IsShut (Step.expire_global e) q x =
      reoffer_loop-IsShut _ [] _ (expire_loop-IsShut job_id (tick e) _ (ticked e x))
  Step-IsShut (Step.webhook_failed e other offer_id) q x =
      webhook_failed-IsShut job_id e other offer_id x

  -- Calls of the service in any order, none of which submits a job of this id.
  pub data RunOfOthers (start : Engine F S) : Engine F S → Type 0 where
    here : RunOfOthers start start
    next :
        {e e' : Engine F S}
        → RunOfOthers start e
        → (s : Step e e') → IsOther s
        → RunOfOthers start e'

  RunOfOthers-IsShut :
      {start e : Engine F S} → RunOfOthers start e → IsShut job_id start → IsShut job_id e
  RunOfOthers-IsShut here x = x
  RunOfOthers-IsShut (next r s q) x = Step-IsShut s q (RunOfOthers-IsShut r x)

  cancelled-IsShut :
      (e : Engine F S)
      → HashMap.contains_key job_id e.jobs ≡ true
      → IsShut job_id (cancel_job e job_id).0
  cancelled-IsShut e known = record {
    cancelled = cancelled-cancel_job e job_id known;
    settled = λ k.
        rw (get-cancel_job_known e job_id k known)
          (is_open-IsSettled job_id (HashMap.get k e.offers));
  }

  shut-IsClosed : (e : Engine F S) → IsShut job_id e → IsClosed e e job_id
  shut-IsClosed e x k o accepted p same =
      let settled : IsSettled job_id (some o) = found-IsSettled job_id _ o p (x.settled k) in
      response-closed e k o accepted p (ground (arith, same, settled))

  -- Cancelling a job that is known answers true, cancels its pending offers and leaves every other
  -- offer as it was. After that, whatever calls the service gets, in any order, as long as none
  -- submits a job of its id: no offer of the job is pending, a request for a next offer for it makes
  -- none, and every response to an offer of the job fails as not pending and changes nothing.
  -- Submitting again another job that is matched is excluded.
  pub cancelled-IsClosed :
      (e e' : Engine F S)
      → HashMap.contains_key job_id e.jobs ≡ true
      → RunOfOthers (cancel_job e job_id).0 e'
      → ((cancel_job e job_id).1 ≡ true)
        × ((k : ℕ)
            → HashMap.get k (cancel_job e job_id).0.offers
              ≡ Option.map (cancel_if (is_open job_id)) (HashMap.get k e.offers))
        × ((k : ℕ) → IsSettled job_id (HashMap.get k e'.offers))
        × (create_next_offer_for_job e' job_id ≡ (e', none))
        × IsClosed e' e' job_id
  cancelled-IsClosed e e' known r =
      let x = RunOfOthers-IsShut r (cancelled-IsShut e known) in
      (
        unfold Mutations.cancel_job in rw (known, Mutations.cancel_job) refl,
        λ k. get-cancel_job_known e job_id k known,
        x.settled,
        no_offer-cancelled e' job_id x.cancelled,
        shut-IsClosed e' x,
      )
