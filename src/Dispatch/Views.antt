-- ===== src/Dispatch/Views.antt =====
-- rust/crates/spatiad-dispatch/src/lib.rs: the methods that pass a call on to the engine.
use spatiad.Base.{ℕ, Bool, Option, List}
use spatiad.Platform.{F64, H3}
use spatiad.Storage.{StorageBackend}
use spatiad.Core.EventKind.{Codec, JobEventFilterKind}
use spatiad.Core.State.{
  Engine, PendingDriverOffer, CancelledDriverOffer, JobDispatchState, JobEventRecord,
  JobEventsCursor,
}
use spatiad.Core.Mutations
use spatiad.Core.Offers
use spatiad.Core.Queries

module _ {F S : Type 0} where
  abbrev pub pending_offers_for_driver : Engine F S → ℕ → Engine F S × List (PendingDriverOffer F)
  pending_offers_for_driver e driver_id = Offers.pending_offers_for_driver e driver_id

  abbrev pub cancelled_offers_for_job : Engine F S → ℕ → List CancelledDriverOffer
  cancelled_offers_for_job e job_id = Offers.cancelled_offers_for_job e job_id

  abbrev pub job_dispatch_state : Engine F S → ℕ → JobDispatchState
  job_dispatch_state e job_id = Offers.job_dispatch_state e job_id

module _ {F S : Type 0} ⦃f : F64 F⦄ ⦃h : H3 F⦄ ⦃c : Codec⦄ ⦃b : StorageBackend F S⦄ where
  abbrev pub cancel_job : Engine F S → ℕ → Engine F S × Bool
  cancel_job e job_id = Mutations.cancel_job e job_id

  abbrev pub record_webhook_delivery_failed : Engine F S → ℕ → ℕ → Engine F S
  record_webhook_delivery_failed e job_id offer_id =
      Mutations.record_webhook_delivery_failed e job_id offer_id

module _ {F S : Type 0} ⦃c : Codec⦄ ⦃b : StorageBackend F S⦄ where
  abbrev pub job_events : Engine F S → ℕ → ℕ → List JobEventRecord
  job_events e job_id limit = Queries.job_events e job_id limit

  abbrev pub job_events_before : Engine F S → ℕ → ℕ → Option ℕ → List JobEventRecord
  job_events_before e job_id limit before = Queries.job_events_before e job_id limit before

  abbrev pub job_events_before_filtered :
      Engine F S → ℕ → ℕ → Option ℕ → Option (List JobEventFilterKind) → List JobEventRecord
  job_events_before_filtered e job_id limit before kinds =
      Queries.job_events_before_filtered e job_id limit before kinds

  abbrev pub job_events_cursor_filtered :
      Engine F S
      → ℕ
      → ℕ
      → Option JobEventsCursor
      → Option (List JobEventFilterKind)
      → List JobEventRecord
  job_events_cursor_filtered e job_id limit cursor kinds =
      Queries.job_events_cursor_filtered e job_id limit cursor kinds
