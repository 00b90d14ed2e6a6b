-- ===== src/Dispatch/Run.antt =====
-- Runs of the service: calls in any order, by any number of clients. The service stands behind one
-- lock, so that calls do not overlap.
use spatiad.Base.{ℕ, ◌≡◌, Bool, false, any, nat_eq, arith, []}
use spatiad.Base.Text.{Text}
use spatiad.Base.HashMap
use spatiad.Platform.{F64, H3, World}
use spatiad.Types.{Coordinates, DriverStatus, JobRequest}
use spatiad.Storage.{StorageBackend}
use spatiad.Core.EventKind.{Codec}
use spatiad.Core.State.{Engine, with_storage}
use spatiad.Core.Mutations.{upsert_driver_location, expire_stale_drivers}
use spatiad.Core.Search.{is_accepted_for}
use spatiad.Core.Offers.Exclusive.{IsExclusive}
use spatiad.Core.Offers.Matching.{
  append_and_apply-IsExclusive, cancel_job-IsExclusive, cancel_offer-IsExclusive,
}
use spatiad.Dispatch.{
  submit_job, cancel_offer, expire_pending_offers_for_driver, expire_pending_offers_global,
  handle_offer_response,
}
use spatiad.Dispatch.Views.{cancel_job, record_webhook_delivery_failed}
use spatiad.Dispatch.Exclusivity.{
  submit_job-IsExclusive, response-IsExclusive, expire_for_driver-IsExclusive,
  expire_global-IsExclusive, webhook_failed-IsExclusive, remove_drivers-IsExclusive,
}

empty-IsExclusive : IsExclusive []
unfolding HashMap.get
empty-IsExclusive = record {
  keyed = λ k o p. ground arith;
  single = λ j k x y p q same acc live. ground arith;
}

module _ {F S : Type 0} ⦃f : F64 F⦄ ⦃h : H3 F⦄ ⦃c : Codec⦄ ⦃b : StorageBackend F S⦄ where
  -- One call. A job is submitted only while it has no accepted offer: a client that submits a job
  -- again after it is matched is outside this relation.
  pub data Step : Engine F S → Engine F S → Type 0 where
    upsert_location :
        (e : Engine F S) (driver_id : ℕ) (category : Text) (position : Coordinates F)
        (status : DriverStatus)
        → Step e (upsert_driver_location e driver_id category position status)
    stale : (e : Engine F S) (ttl : ℕ) → Step e (expire_stale_drivers e ttl).0
    submit :
        (e : Engine F S) (job : JobRequest F)
        → any (is_accepted_for job.job_id) (HashMap.values e.offers) ≡ false
        → Step e (submit_job e job).0
    respond :
        (e : Engine F S) (offer_id : ℕ) (accepted : Bool)
        → Step e (handle_offer_response e offer_id accepted).0
    cancel : (e : Engine F S) (job_id : ℕ) → Step e (cancel_job e job_id).0
    withdraw : (e : Engine F S) (offer_id : ℕ) → Step e (cancel_offer e offer_id)
    expire_for_driver :
        (e : Engine F S) (driver_id : ℕ) → Step e (expire_pending_offers_for_driver e driver_id).0
    expire_global : (e : Engine F S) → Step e (expire_pending_offers_global e).0
    webhook_failed :
        (e : Engine F S) (job_id offer_id : ℕ)
        → Step e (record_webhook_delivery_failed e job_id offer_id)

  pub data Run (start : Engine F S) : Engine F S → Type 0 where
    here : Run start start
    next : {e e' : Engine F S} → Run start e → Step e e' → Run start e'

  pub Step-IsExclusive :
      {e e' : Engine F S} → Step e e' → IsExclusive e.offers → IsExclusive e'.offers
  unfolding upsert_driver_location expire_stale_drivers cancel_offer
  Step-IsExclusive (upsert_location e _ _ _ _) x = append_and_apply-IsExclusive _ _ tt x
  Step-IsExclusive (stale e ttl) x = remove_drivers-IsExclusive _ _ x
  Step-IsExclusive (submit e job free) x = submit_job-IsExclusive e job free x
  Step-IsExclusive (respond e offer_id accepted) x = response-IsExclusive e offer_id accepted x
  Step-IsExclusive (cancel e job_id) x = cancel_job-IsExclusive e job_id x
  Step-IsExclusive (withdraw e offer_id) x = cancel_offer-IsExclusive e offer_id x
  Step-IsExclusive (expire_for_driver e driver_id) x = expire_for_driver-IsExclusive e driver_id x
  Step-IsExclusive (expire_global e) x = expire_global-IsExclusive e x
  Step-IsExclusive (webhook_failed e job_id offer_id) x =
      webhook_failed-IsExclusive e job_id offer_id x

  pub Run-IsExclusive :
      {start e : Engine F S} → Run start e → IsExclusive start.offers → IsExclusive e.offers
  Run-IsExclusive here x = x
  Run-IsExclusive (next r s) x = Step-IsExclusive s (Run-IsExclusive r x)

  -- In every state that a new engine reaches by calls of the service, in any order, two accepted
  -- offers of one job are the same offer, and so are an accepted and a pending one: a job is
  -- matched with at most one driver. Submitting again a job that is matched is excluded.
  pub one_match :
      (h3_resolution : ℕ) (storage : S) (w : World) (e : Engine F S)
      → Run (with_storage h3_resolution storage w) e
      → IsExclusive e.offers
  unfolding with_storage
  one_match h3_resolution storage w e r = Run-IsExclusive r empty-IsExclusive
