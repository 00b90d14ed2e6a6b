-- ===== src/Core/Offers.antt =====
-- The public methods on offers: status changes, expiry, responses, and the state of a job.
pub mod Exclusive
pub mod Matching
pub mod Locking
pub mod Closing
pub mod Closed
pub mod Outcomes
pub mod Status
pub mod Expiry
pub mod Responses
pub mod Logging
use spatiad.Base.{
  ℕ, Bool, true, false, ◌&&◌, Option, none, some, List, [], ◌∷◌, map, filter, any, find, is_empty,
  ltb, leb, ◌==◌, nat_eq, if◌then◌else◌, Result, ok, err,
}
use spatiad.Base.HashMap
use spatiad.Base.HashMap.{HashMap}
use spatiad.Base.HashSet
use spatiad.Platform.{F64, H3, World, utc_now, after_now}
use spatiad.Types.{
  JobRequest, OfferStatus, OfferRecord, MatchResult, is_pending, is_accepted, is_cancelled,
}
use spatiad.Storage.{StorageBackend, Command}
use spatiad.Core.EventKind.{JobEventKind, Codec}
use spatiad.Core.State.{
  Engine, CoreError, PendingDriverOffer, CancelledDriverOffer, ExpiredOffer, JobDispatchState,
}
use spatiad.Core.Journal.{push_job_event}
use spatiad.Core.Commands.{append_and_apply, set_status}
use spatiad.Core.Mutations.{tick}

module _ {F : Type 0} where
  -- Both closures of `pending_offers_for_driver`. The clock is read once for each pending offer of
  -- the driver, since `&&` stops at the first test that fails.
  pending_loop :
      World → ℕ → HashMap ℕ (JobRequest F) → List OfferRecord → World × List (PendingDriverOffer F)
  pending_loop w driver_id jobs [] = (w, [])
  pending_loop w driver_id jobs (o ∷ os) =
      let mine = o.driver_id == driver_id && is_pending o.status in
      let (w', rest) = pending_loop (if mine then after_now w else w) driver_id jobs os in
      (
        w',
        if mine && ltb (utc_now w) o.expires_at
            then elim (HashMap.get o.job_id jobs) [
              | none ↦ rest
              | some job ↦
                  record {
                    offer_id = o.offer_id;
                    job_id = o.job_id;
                    pickup = job.pickup;
                    dropoff = job.dropoff;
                    expires_at = o.expires_at;
                  }
                  ∷ rest
            ]
            else rest,
      )

  unfoldable pub pending_offers_for_driver :
      {S : Type 0} → Engine F S → ℕ → Engine F S × List (PendingDriverOffer F)
  unfolding pending_loop
  pending_offers_for_driver e driver_id =
      let (w, offers) = pending_loop e.world driver_id e.jobs (HashMap.values e.offers) in
      (record e { world = w }, offers)

-- The test of `expire_pending_offers_global`, and the one of `expire_pending_offers_for_driver`.
abbrev pub is_overdue : ℕ → OfferRecord → Bool
is_overdue now o = is_pending o.status && leb o.expires_at now

abbrev pub is_overdue_for : ℕ → ℕ → OfferRecord → Bool
is_overdue_for driver_id now o = o.driver_id == driver_id && is_overdue now o

abbrev pub is_cancelled_for : ℕ → OfferRecord → Bool
is_cancelled_for job_id o = o.job_id == job_id && is_cancelled o.status

-- `job_dispatch_state` once the job is known, on the offers of the job.
unfoldable pub state_of_offers : List OfferRecord → Bool → JobDispatchState
state_of_offers offers is_job_cancelled =
    if is_empty offers
    then JobDispatchState.pending
    else elim (find (λ o. is_accepted o.status) offers) [
      | some o ↦ JobDispatchState.matched o.driver_id o.offer_id
      | none ↦
          if is_job_cancelled
          then JobDispatchState.cancelled
          else if any (λ o. is_pending o.status) offers
          then JobDispatchState.searching
          else JobDispatchState.exhausted
    ]

module _ {F S : Type 0} where
  unfoldable pub offer_job_id : Engine F S → ℕ → Option ℕ
  offer_job_id e offer_id = elim (HashMap.get offer_id e.offers) [
    | none ↦ none
    | some offer ↦ some offer.job_id
  ]

  unfoldable pub cancelled_offers_for_job : Engine F S → ℕ → List CancelledDriverOffer
  cancelled_offers_for_job e job_id =
      map (λ o. record { driver_id = o.driver_id; offer_id = o.offer_id })
        (filter (is_cancelled_for job_id) (HashMap.values e.offers))

  unfoldable pub job_dispatch_state : Engine F S → ℕ → JobDispatchState
  unfolding state_of_offers
  job_dispatch_state e job_id =
      if HashMap.contains_key job_id e.jobs
      then state_of_offers (filter (λ o. o.job_id == job_id) (HashMap.values e.offers))
          (HashSet.contains job_id e.cancelled_jobs)
      else JobDispatchState.unknown_job

module _ {F S : Type 0} ⦃f : F64 F⦄ ⦃h : H3 F⦄ ⦃c : Codec⦄ ⦃b : StorageBackend F S⦄ where
  -- A status that no command carries is set with no entry in the log.
  set_directly : Engine F S → ℕ → OfferStatus → Engine F S × Result (Unit {0}) CoreError
  set_directly e offer_id status = elim (HashMap.get offer_id e.offers) [
    | none ↦ (e, err CoreError.offer_not_found)
    | some offer ↦ (
      push_job_event (record e { offers = HashMap.adjust offer_id (set_status status) e.offers })
          offer.job_id (JobEventKind.offer_status_updated offer_id status),
      ok tt,
    )
  ]

  mark_found : Engine F S → ℕ → OfferStatus → Engine F S × Result (Unit {0}) CoreError
  unfolding set_directly
  mark_found e offer_id OfferStatus.cancelled =
      (append_and_apply e (Command.mark_offer_cancelled offer_id), ok tt)
  mark_found e offer_id OfferStatus.expired =
      (append_and_apply e (Command.mark_offer_expired offer_id), ok tt)
  mark_found e offer_id status = set_directly e offer_id status

  unfoldable pub mark_offer_status :
      Engine F S → ℕ → OfferStatus → Engine F S × Result (Unit {0}) CoreError
  unfolding mark_found
  mark_offer_status e offer_id status = elim (HashMap.get offer_id e.offers) [
    | none ↦ (e, err CoreError.offer_not_found)
    | some _ ↦ mark_found e offer_id status
  ]

  -- The loop over the overdue offers: what it returns is read before each offer is marked.
  unfoldable pub expire_loop : Engine F S → List ℕ → Engine F S × List ExpiredOffer
  expire_loop e [] = (e, [])
  expire_loop e (offer_id ∷ ids) =
      let (e', rest) = expire_loop (append_and_apply e (Command.mark_offer_expired offer_id)) ids in
      (
        e',
        elim (HashMap.get offer_id e.offers) [
          | none ↦ rest
          | some o ↦
              record { offer_id = o.offer_id; driver_id = o.driver_id; job_id = o.job_id } ∷ rest
        ],
      )

  -- The ids of the offers that a test picks, in the order of the map.
  abbrev pub picked : (OfferRecord → Bool) → Engine F S → List ℕ
  picked p e = map (λ o. o.offer_id) (filter p (HashMap.values e.offers))

  unfoldable pub expire_pending_offers_for_driver : Engine F S → ℕ → Engine F S × List ExpiredOffer
  expire_pending_offers_for_driver e driver_id =
      expire_loop (tick e) (picked (is_overdue_for driver_id (utc_now e.world)) e)

  unfoldable pub expire_pending_offers_global : Engine F S → Engine F S × List ExpiredOffer
  expire_pending_offers_global e = expire_loop (tick e) (picked (is_overdue (utc_now e.world)) e)

  -- The response to a pending offer that has not expired: the second reading of the clock.
  respond : Engine F S → ℕ → OfferRecord → Bool → Engine F S × Result (Option MatchResult) CoreError
  respond e offer_id offer true = (
    append_and_apply (tick e) (Command.accept_offer offer_id (utc_now e.world)),
    ok (
        some (record {
          job_id = offer.job_id;
          driver_id = offer.driver_id;
          offer_id = offer_id;
          matched_at = utc_now e.world;
        })),
  )
  respond e offer_id offer false =
      (append_and_apply (tick e) (Command.reject_offer offer_id (utc_now e.world)), ok none)

  unfoldable pub handle_offer_response :
      Engine F S → ℕ → Bool → Engine F S × Result (Option MatchResult) CoreError
  unfolding respond
  handle_offer_response e offer_id accepted = elim (HashMap.get offer_id e.offers) [
    | none ↦ (e, err CoreError.offer_not_found)
    | some offer ↦
        if is_pending offer.status
        then if leb offer.expires_at (utc_now e.world)
          then (
            append_and_apply (tick e) (Command.mark_offer_expired offer_id),
            err CoreError.offer_expired,
          )
          else respond (tick e) offer_id offer accepted
        else (e, err CoreError.offer_not_pending)
  ]
