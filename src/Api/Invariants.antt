-- ===== src/Api/Invariants.antt =====
-- rust/crates/spatiad-api/src/lib.rs: predicates on the service that the server's tasks keep.
pub mod Sending
pub mod Handling
pub mod Serving
pub mod Requests
pub mod Ticks
pub mod Server
pub mod Recovering
use spatiad.Base.{
  ℕ, ◌≡◌, Bool, true, false, Option, none, some, List, [], ◌∷◌, find, Result, ok, err, nat_beq,
  Bool-cases, inl, inr, arith, ◌∙◌, refl, nat_eq,
}
use spatiad.Base.Text.{Text}
use spatiad.Base.HashMap
use spatiad.Platform.{F64, H3, World}
use spatiad.Types.{OfferRecord}
use spatiad.Storage.{StorageBackend}
use spatiad.Core.EventKind.{Codec}
use spatiad.Core.State.{Engine, PendingDriverOffer, CancelledDriverOffer, ExpiredOffer}
use spatiad.Core.Offers
use spatiad.Dispatch.Run.{Step}
use spatiad.Dispatch.Views.{pending_offers_for_driver, cancelled_offers_for_job}
use spatiad.Ws.{DriverOutbound}
use spatiad.Api.State.{ApiState, Tasks, acquire, after_clock}
use spatiad.Api.Sessions.{
  deliver, deliver_cancelled, deliver_expired, notify_competing_cancellations, notify_new_offers,
  cancelled_from, notify_found, notify_listed, offer_message,
}

-- A predicate on the service that its calls, the clock and the other tasks keep.
pub record IsKept {F S : Type 0} ⦃f : F64 F⦄ ⦃h : H3 F⦄ ⦃c : Codec⦄ ⦃b : StorageBackend F S⦄
    ⦃t : Tasks F S⦄ (P : Engine F S → Type 0) : Type 0 where
  pub by_step : (e e' : Engine F S) → Step e e' → P e → P e'
  pub by_world : (e : Engine F S) (w : World) → P e → P (record e { world = w })
  pub by_others : (n : ℕ) (s : ApiState F S) → P s.dispatch → P (t.others n s).dispatch

module _ {F S : Type 0} where
  pub deliver-dispatch :
      (s : ApiState F S) (driver_id : ℕ) (message : DriverOutbound F)
      → (deliver s driver_id message).dispatch ≡ s.dispatch
  unfolding deliver
  deliver-dispatch s driver_id message = ground arith

  pub deliver_cancelled-dispatch :
      (s : ApiState F S) (job_id : ℕ) (items : List CancelledDriverOffer)
      → (deliver_cancelled s job_id items).dispatch ≡ s.dispatch
  unfolding deliver_cancelled
  deliver_cancelled-dispatch s job_id [] = refl
  deliver_cancelled-dispatch s job_id (item ∷ items) =
      deliver_cancelled-dispatch
        (deliver s item.driver_id (DriverOutbound.offer_cancelled item.offer_id job_id)) job_id
        items
      ∙ deliver-dispatch s item.driver_id _

  pub deliver_expired-dispatch :
      (s : ApiState F S) (items : List ExpiredOffer)
      → (deliver_expired s items).dispatch ≡ s.dispatch
  unfolding deliver_expired
  deliver_expired-dispatch s [] = refl
  deliver_expired-dispatch s (item ∷ items) =
      deliver_expired-dispatch
        (deliver s item.driver_id (DriverOutbound.offer_expired item.offer_id)) items
      ∙ deliver-dispatch s item.driver_id _

module _ {F S : Type 0} ⦃f : F64 F⦄ ⦃h : H3 F⦄ ⦃c : Codec⦄ ⦃b : StorageBackend F S⦄ ⦃t : Tasks F S⦄
    (P : Engine F S → Type 0) (k : IsKept P) where
  pub acquire-keeps : (s : ApiState F S) → P s.dispatch → P (acquire s).dispatch
  unfolding acquire
  acquire-keeps s x = k.by_others s.locks _ x

  cancelled_from-keeps :
      (job_id : ℕ) (s : ApiState F S) (items : List CancelledDriverOffer)
      → P s.dispatch
      → P (cancelled_from job_id s items).dispatch
  cancelled_from-keeps job_id s [] x = x
  cancelled_from-keeps job_id s (item ∷ items) x =
      rw (deliver_cancelled-dispatch (acquire s) job_id (item ∷ items)) (acquire-keeps s x)

  pub notify_competing_cancellations-keeps :
      (s : ApiState F S) (job_id : ℕ)
      → P s.dispatch
      → P (notify_competing_cancellations s job_id).dispatch
  unfolding notify_competing_cancellations
  notify_competing_cancellations-keeps s job_id x =
      cancelled_from-keeps job_id (acquire s) _ (acquire-keeps s x)

  notify_found-keeps :
      (s : ApiState F S) (driver_id : ℕ) (found : Option (PendingDriverOffer F))
      → P s.dispatch
      → P (notify_found s driver_id found).dispatch
  notify_found-keeps s driver_id none x = x
  notify_found-keeps s driver_id (some pending) x =
      rw (deliver-dispatch (acquire s) driver_id (offer_message pending)) (acquire-keeps s x)

  pub listed-keeps :
      (e : Engine F S) (driver_id : ℕ) → P e → P (pending_offers_for_driver e driver_id).0
  unfolding Offers.pending_offers_for_driver
  listed-keeps e driver_id x = k.by_world e _ x

  notify_listed-keeps :
      (s : ApiState F S) (offer : OfferRecord) (r : Engine F S × List (PendingDriverOffer F))
      → P r.0
      → P (notify_listed s offer r).dispatch
  unfolding notify_listed
  notify_listed-keeps s offer (e, listed) x = notify_found-keeps _ offer.driver_id _ x

  pub notify_new_offers-keeps :
      (s : ApiState F S) (offers : List OfferRecord)
      → P s.dispatch
      → P (notify_new_offers s offers).dispatch
  unfolding notify_new_offers
  notify_new_offers-keeps s [] x = x
  notify_new_offers-keeps s (offer ∷ offers) x =
      notify_new_offers-keeps
        (notify_listed (acquire s) offer
          (pending_offers_for_driver (acquire s).dispatch offer.driver_id))
        offers
        (notify_listed-keeps (acquire s) offer
          (pending_offers_for_driver (acquire s).dispatch offer.driver_id)
          (listed-keeps (acquire s).dispatch offer.driver_id (acquire-keeps s x)))
