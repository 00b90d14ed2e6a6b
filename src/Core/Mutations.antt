-- ===== src/Core/Mutations.antt =====
-- The public methods that change drivers and jobs, `stats`, and `create_offer`.
use spatiad.Base.{
  ℕ, ◌+◌, Bool, true, false, List, [], ◌∷◌, length, filter, map, ltb, nat_eq, if◌then◌else◌,
}
use spatiad.Base.Text.{Text}
use spatiad.Base.HashMap
use spatiad.Platform.{F64, H3, utc_now, after_now, new_v4, after_v4, seconds}
use spatiad.Types.{
  Coordinates, DriverStatus, DriverSnapshot, JobRequest, OfferStatus, OfferRecord, is_pending,
}
use spatiad.Storage.{StorageBackend, Command}
use spatiad.Core.EventKind.{Codec}
use spatiad.Core.State.{Engine, EngineStats}
use spatiad.Core.Commands.{append_and_apply}

-- One reading of the clock.
abbrev pub tick : {F S : Type 0} → Engine F S → Engine F S
tick e = record e { world = after_now e.world }

abbrev pub is_stale : {F : Type 0} → ℕ → ℕ → DriverSnapshot F → Bool
is_stale now ttl d = ltb (d.last_seen_at + ttl) now

module _ {F S : Type 0} ⦃f : F64 F⦄ ⦃h : H3 F⦄ ⦃c : Codec⦄ ⦃b : StorageBackend F S⦄ where
  unfoldable pub upsert_driver_location :
      Engine F S → ℕ → Text → Coordinates F → DriverStatus → Engine F S
  upsert_driver_location e driver_id category position status =
      append_and_apply (tick e)
        (Command.upsert_driver_location driver_id category position status (utc_now e.world))

  unfoldable pub register_job : Engine F S → JobRequest F → Engine F S
  register_job e job = append_and_apply e (Command.register_job job)

  unfoldable pub cancel_job : Engine F S → ℕ → Engine F S × Bool
  cancel_job e job_id =
      if HashMap.contains_key job_id e.jobs
      then (append_and_apply e (Command.cancel_job job_id), true)
      else (e, false)

  unfoldable pub record_webhook_delivery_failed : Engine F S → ℕ → ℕ → Engine F S
  record_webhook_delivery_failed e job_id offer_id =
      if HashMap.contains_key job_id e.jobs
      then append_and_apply e (Command.record_webhook_delivery_failed job_id offer_id)
      else e

  unfoldable pub remove_drivers : Engine F S → List ℕ → Engine F S
  remove_drivers e [] = e
  remove_drivers e (driver_id ∷ rest) =
      remove_drivers (append_and_apply e (Command.remove_driver driver_id)) rest

  -- `ttl` is a duration in nanoseconds. The test `last_seen_at < now - ttl` is written with a sum,
  -- since `-` on ℕ stops at 0.
  unfoldable pub expire_stale_drivers : Engine F S → ℕ → Engine F S × List ℕ
  expire_stale_drivers e ttl =
      let stale = map (λ en. en.0) (filter (λ en. is_stale (utc_now e.world) ttl en.1) e.drivers) in
      (remove_drivers (tick e) stale, stale)

  unfoldable pub create_offer : Engine F S → ℕ → ℕ → ℕ → Engine F S × OfferRecord
  create_offer e job_id driver_id timeout_seconds =
      let offer : OfferRecord = record {
        offer_id = new_v4 e.world;
        job_id = job_id;
        driver_id = driver_id;
        status = OfferStatus.pending;
        expires_at = utc_now e.world + seconds timeout_seconds;
      } in
      (
        append_and_apply (record e { world = after_v4 (after_now e.world) })
            (Command.create_offer offer),
        offer,
      )

module _ {F S : Type 0} ⦃b : StorageBackend F S⦄ where
  unfoldable pub stats : Engine F S → EngineStats
  stats e = record {
    drivers = length e.drivers;
    jobs = length e.jobs;
    offers = length e.offers;
    pending_offers = length (filter (λ o. is_pending o.status) (HashMap.values e.offers));
    cancelled_jobs = length e.cancelled_jobs;
    wal_sequence = e.wal_sequence;
    storage_persistent = b.is_persistent e.storage;
  }
