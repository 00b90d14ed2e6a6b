-- ===== src/Dispatch.antt =====
-- rust/crates/spatiad-dispatch/src/lib.rs: the service over the engine. A `DispatchService` is its
-- engine; the methods that only pass a call on to the engine stand in Views.
pub mod Exclusivity
pub mod Logging
pub mod Recovering
pub mod Run
pub mod Closing
pub mod Nearest
pub mod Submission
pub mod Views
use spatiad.Base.{
  ℕ, Bool, Option, none, some, List, [], ◌∷◌, Result, ok, err, nat_eq, if◌then◌else◌,
}
use spatiad.Base.HashSet
use spatiad.Base.HashSet.{HashSet}
use spatiad.Platform.{F64, H3}
use spatiad.Types.{JobRequest, OfferStatus, OfferRecord, MatchResult}
use spatiad.Storage.{StorageBackend}
use spatiad.Core.EventKind.{Codec}
use spatiad.Core.State.{Engine, ExpiredOffer, CoreError}
use spatiad.Core.Mutations.{register_job, create_offer}
use spatiad.Core.Search.{
  Search, nearest_candidates_in_radius, search_job, create_next_offer_for_job,
}
use spatiad.Core.Offers.{mark_offer_status, offer_job_id}
use spatiad.Core.Offers

pub data DispatchError : Type 0 where
  no_available_driver invalid_offer_response : DispatchError

pub record OfferResponseUpdate : Type 0 where
  pub matched : Option MatchResult
  pub new_offers : List OfferRecord

pub record ExpirationUpdate : Type 0 where
  pub expired : List ExpiredOffer
  pub new_offers : List OfferRecord

abbrev pub to_list : Option OfferRecord → List OfferRecord
to_list none = []
to_list (some o) = o ∷ []

abbrev pub first : List ℕ → Option ℕ
first [] = none
first (x ∷ _) = some x

module _ {F S : Type 0} ⦃f : F64 F⦄ where
  -- The first of the three nearest candidates.
  unfoldable pub pick_first : Engine F S → JobRequest F → F → Option ℕ
  pick_first e job radius_km =
      first (nearest_candidates_in_radius e job.pickup job.category radius_km 3)

module _ {F S : Type 0} ⦃f : F64 F⦄ ⦃h : H3 F⦄ ⦃c : Codec⦄ ⦃b : StorageBackend F S⦄ where
  first_offer : Engine F S → JobRequest F → Search → Engine F S × Result OfferRecord DispatchError
  first_offer e job (Search.found driver_id) =
      let (e', offer) = create_offer e job.job_id driver_id job.timeout_seconds in (e', ok offer)
  first_offer e job Search.exhausted = (e, err DispatchError.no_available_driver)
  first_offer e job Search.out_of_fuel = (e, err DispatchError.no_available_driver)

  unfoldable pub submit_job :
      Engine F S → JobRequest F → Engine F S × Result OfferRecord DispatchError
  unfolding first_offer
  submit_job e job =
      let registered = register_job e job in
      first_offer registered job (search_job job (pick_first registered job))

  -- The result of the marking is dropped.
  unfoldable pub cancel_offer : Engine F S → ℕ → Engine F S
  cancel_offer e offer_id = (mark_offer_status e offer_id OfferStatus.cancelled).0

  -- `if seen_jobs.insert(job_id) { ... }`.
  reoffer : Engine F S → HashSet ℕ → ℕ → Engine F S × Option OfferRecord
  reoffer e seen_jobs job_id =
      if HashSet.contains job_id seen_jobs then (e, none) else create_next_offer_for_job e job_id

  unfoldable pub reoffer_loop :
      Engine F S → HashSet ℕ → List ExpiredOffer → Engine F S × List OfferRecord
  unfolding reoffer
  reoffer_loop e seen_jobs [] = (e, [])
  reoffer_loop e seen_jobs (item ∷ items) =
      let (e', offer) = reoffer e seen_jobs item.job_id in
      let (e'', rest) = reoffer_loop e' (HashSet.insert item.job_id seen_jobs) items in
      (e'', elim offer [ none ↦ rest | some o ↦ o ∷ rest ])

  reoffer_expired : Engine F S × List ExpiredOffer → Engine F S × ExpirationUpdate
  reoffer_expired (e, expired) =
      let (e', new_offers) = reoffer_loop e [] expired in
      (e', record { expired = expired; new_offers = new_offers })

  unfoldable pub expire_pending_offers_for_driver : Engine F S → ℕ → Engine F S × ExpirationUpdate
  unfolding reoffer_expired
  expire_pending_offers_for_driver e driver_id =
      reoffer_expired (Offers.expire_pending_offers_for_driver e driver_id)

  unfoldable pub expire_pending_offers_global : Engine F S → Engine F S × ExpirationUpdate
  unfolding reoffer_expired
  expire_pending_offers_global e = reoffer_expired (Offers.expire_pending_offers_global e)

  after_response :
      ℕ
      → Engine F S × Result (Option MatchResult) CoreError
      → Engine F S × Result OfferResponseUpdate DispatchError
  after_response job_id (e, err _) = (e, err DispatchError.invalid_offer_response)
  after_response job_id (e, ok (some m)) = (e, ok (record { matched = some m; new_offers = [] }))
  after_response job_id (e, ok none) =
      let (e', offer) = create_next_offer_for_job e job_id in
      (e', ok (record { matched = none; new_offers = to_list offer }))

  unfoldable pub handle_offer_response :
      Engine F S → ℕ → Bool → Engine F S × Result OfferResponseUpdate DispatchError
  unfolding after_response
  handle_offer_response e offer_id accepted = elim (offer_job_id e offer_id) [
    | none ↦ (e, err DispatchError.invalid_offer_response)
    | some job_id ↦ after_response job_id (Offers.handle_offer_response e offer_id accepted)
  ]
