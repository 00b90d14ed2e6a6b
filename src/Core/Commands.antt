-- ===== src/Core/Commands.antt =====
-- `apply_command` and `append_and_apply`: the one way by which commands change the engine.
pub mod Numbering
pub mod Tables
use spatiad.Base.{
  ℕ, ◌+◌, Bool, true, false, not, ◌&&◌, Option, none, some, List, [], ◌∷◌, ◌++◌, map, filter, u64,
  ◌==◌, nat_eq, if◌then◌else◌,
}
use spatiad.Base.Text.{Text}
use spatiad.Base.HashMap
use spatiad.Base.HashMap.{HashMap}
use spatiad.Base.HashSet
use spatiad.Platform.{F64, H3}
use spatiad.Types.{
  Coordinates, DriverStatus, DriverSnapshot, JobRequest, OfferStatus, OfferRecord, is_pending,
}
use spatiad.Storage.{StorageBackend, Command}
use spatiad.SpatialIndex
use spatiad.Core.EventKind.{JobEventKind, Codec}
use spatiad.Core.State.{Engine}
use spatiad.Core.Journal.{push_job_event, push_job_events}

abbrev pub set_status : OfferStatus → OfferRecord → OfferRecord
set_status s o = record o { status = s }

-- The test of the loop over the competing offers.
abbrev pub is_competing : ℕ → ℕ → OfferRecord → Bool
is_competing job_id selected o =
    o.job_id == job_id && (not (o.offer_id == selected) && is_pending o.status)

-- The test of the loop over the offers of a cancelled job.
abbrev pub is_open : ℕ → OfferRecord → Bool
is_open job_id o = o.job_id == job_id && is_pending o.status

abbrev pub cancel_if : (OfferRecord → Bool) → OfferRecord → OfferRecord
cancel_if p o = if p o then set_status OfferStatus.cancelled o else o

abbrev pub cancelled_event : OfferRecord → JobEventKind
cancelled_event o = JobEventKind.offer_cancelled o.offer_id o.driver_id

abbrev pub set_busy : {F : Type 0} → DriverSnapshot F → DriverSnapshot F
set_busy d = record d { status = DriverStatus.busy }

module _ {F S : Type 0} ⦃f : F64 F⦄ ⦃h : H3 F⦄ ⦃c : Codec⦄ ⦃b : StorageBackend F S⦄ where
  unfoldable pub apply_upsert_driver_location :
      Engine F S → ℕ → Text → Coordinates F → DriverStatus → ℕ → Engine F S
  apply_upsert_driver_location e driver_id category position status timestamp = record e {
    spatial = SpatialIndex.upsert_driver e.spatial driver_id position;
    drivers =
        HashMap.insert driver_id
          (record {
            driver_id = driver_id;
            category = category;
            status = status;
            position = position;
            last_seen_at = timestamp;
          })
          e.drivers;
  }

  unfoldable pub apply_register_job : Engine F S → JobRequest F → Engine F S
  apply_register_job e job =
      push_job_event
        (record e {
          jobs = HashMap.insert job.job_id job e.jobs;
          cancelled_jobs = HashSet.remove job.job_id e.cancelled_jobs;
        })
        job.job_id JobEventKind.job_registered

  unfoldable pub apply_create_offer : Engine F S → OfferRecord → Engine F S
  apply_create_offer e offer =
      push_job_event (record e { offers = HashMap.insert offer.offer_id offer e.offers })
        offer.job_id (JobEventKind.offer_created offer.offer_id offer.driver_id)

  -- Marks the offer, cancels its competitors, and makes the driver busy. The source collects the
  -- cancelled offers in the loop that marks them; the test reads nothing that the loop writes
  -- before it.
  accept_found : Engine F S → ℕ → OfferRecord → Engine F S
  accept_found e offer_id offer =
      let accepted = HashMap.adjust offer_id (set_status OfferStatus.accepted) e.offers in
      let competing = is_competing offer.job_id offer.offer_id in
      push_job_events
        (record e {
          offers = HashMap.map_values (cancel_if competing) accepted;
          drivers = HashMap.adjust offer.driver_id set_busy e.drivers;
        })
        offer.job_id
        (map cancelled_event (filter competing (HashMap.values accepted))
          ++ (JobEventKind.offer_accepted offer.offer_id offer.driver_id
              ∷ JobEventKind.match_confirmed offer.offer_id offer.driver_id
              ∷ []))

  unfoldable pub apply_accept_offer : Engine F S → ℕ → Engine F S
  unfolding accept_found
  apply_accept_offer e offer_id = elim (HashMap.get offer_id e.offers) [
    | none ↦ e
    | some offer ↦ accept_found e offer_id offer
  ]

  -- The common shape of `RejectOffer`, `MarkOfferExpired` and `MarkOfferCancelled`.
  unfoldable pub apply_mark : Engine F S → ℕ → OfferStatus → (ℕ → ℕ → JobEventKind) → Engine F S
  apply_mark e offer_id status event = elim (HashMap.get offer_id e.offers) [
    | none ↦ e
    | some offer ↦
        push_job_event (record e { offers = HashMap.adjust offer_id (set_status status) e.offers })
          offer.job_id (event offer_id offer.driver_id)
  ]

  unfoldable pub apply_cancel_job : Engine F S → ℕ → Engine F S
  apply_cancel_job e job_id =
      if HashMap.contains_key job_id e.jobs
      then push_job_events
          (record e {
            cancelled_jobs = HashSet.insert job_id e.cancelled_jobs;
            offers = HashMap.map_values (cancel_if (is_open job_id)) e.offers;
          })
          job_id
          (map cancelled_event (filter (is_open job_id) (HashMap.values e.offers))
            ++ (if HashSet.contains job_id e.cancelled_jobs
                then []
                else JobEventKind.job_cancelled ∷ []))
      else e

  unfoldable pub apply_remove_driver : Engine F S → ℕ → Engine F S
  apply_remove_driver e driver_id = record e {
    spatial = SpatialIndex.remove_driver e.spatial driver_id;
    drivers = HashMap.remove driver_id e.drivers;
  }

  unfoldable pub apply_record_webhook_delivery_failed : Engine F S → ℕ → ℕ → Engine F S
  apply_record_webhook_delivery_failed e job_id offer_id =
      if HashMap.contains_key job_id e.jobs
      then push_job_event e job_id (JobEventKind.webhook_delivery_failed offer_id)
      else e

  unfoldable pub apply_command : Engine F S → Command F → Engine F S
  apply_command e (Command.upsert_driver_location driver_id category position status timestamp) =
      apply_upsert_driver_location e driver_id category position status timestamp
  apply_command e (Command.register_job job) = apply_register_job e job
  apply_command e (Command.create_offer offer) = apply_create_offer e offer
  apply_command e (Command.accept_offer offer_id _) = apply_accept_offer e offer_id
  apply_command e (Command.reject_offer offer_id _) =
      apply_mark e offer_id OfferStatus.rejected JobEventKind.offer_rejected
  apply_command e (Command.mark_offer_expired offer_id) =
      apply_mark e offer_id OfferStatus.expired JobEventKind.offer_expired
  apply_command e (Command.mark_offer_cancelled offer_id) =
      apply_mark e offer_id OfferStatus.cancelled JobEventKind.offer_cancelled
  apply_command e (Command.cancel_job job_id) = apply_cancel_job e job_id
  apply_command e (Command.remove_driver driver_id) = apply_remove_driver e driver_id
  apply_command e (Command.record_webhook_delivery_failed job_id offer_id) =
      apply_record_webhook_delivery_failed e job_id offer_id

  -- A failed append is logged and ignored.
  append : Engine F S → Command F → Engine F S
  append e cmd =
      let sequence = u64 (e.wal_sequence + 1) in
      record e { wal_sequence = sequence; storage = (b.append_wal e.storage sequence cmd).0 }

  unfoldable pub append_and_apply : Engine F S → Command F → Engine F S
  unfolding append
  append_and_apply e cmd = apply_command (append e cmd) cmd
