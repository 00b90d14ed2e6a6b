-- ===== src/Core/Recovery.antt =====
-- Snapshots, and the recovery of an engine from a snapshot and the log.
pub mod Durable
pub mod Replaying
pub mod Kept
pub mod Stored
pub mod Durability
pub mod Life
pub mod Logged
use spatiad.Base.{ℕ, Option, none, some, List, [], ◌∷◌, Result, ok, err, ◌>>=◌, map_err}
use spatiad.Base.Text.{Text}
use spatiad.Platform.{F64, H3, World}
use spatiad.Types.{DriverSnapshot}
use spatiad.Storage.{StorageBackend, StorageError, Command, EngineSnapshot, to_string}
use spatiad.SpatialIndex
use spatiad.SpatialIndex.{SpatialIndex}
use spatiad.Core.EventKind.{Codec}
use spatiad.Core.State.{Engine, with_storage}
use spatiad.Core.Commands.{apply_command}

unfoldable pub to_snapshot : {F S : Type 0} → Engine F S → EngineSnapshot F
to_snapshot e = record {
  h3_resolution = e.h3_resolution;
  drivers = e.drivers;
  jobs = e.jobs;
  offers = e.offers;
  cancelled_jobs = e.cancelled_jobs;
  job_event_sequences = e.job_event_sequences;
  wal_sequence = e.wal_sequence;
}

module _ {F : Type 0} ⦃f : F64 F⦄ ⦃h : H3 F⦄ where
  -- The spatial index of a list of drivers.
  unfoldable pub rebuild : SpatialIndex → List (ℕ × DriverSnapshot F) → SpatialIndex
  rebuild s [] = s
  rebuild s ((id, d) ∷ rest) = rebuild (SpatialIndex.upsert_driver s id d.position) rest

  unfoldable pub of_snapshot : {S : Type 0} → EngineSnapshot F → S → World → Engine F S
  of_snapshot snap storage world = record {
    h3_resolution = snap.h3_resolution;
    spatial = rebuild (SpatialIndex.new snap.h3_resolution) snap.drivers;
    drivers = snap.drivers;
    jobs = snap.jobs;
    offers = snap.offers;
    cancelled_jobs = snap.cancelled_jobs;
    job_events = [];
    job_event_sequences = snap.job_event_sequences;
    storage = storage;
    wal_sequence = snap.wal_sequence;
    world = world;
  }

  unfoldable pub of_snapshot_or_new :
      {S : Type 0} → ℕ → Option (EngineSnapshot F) → S → World → Engine F S
  of_snapshot_or_new h3_resolution none storage world = with_storage h3_resolution storage world
  of_snapshot_or_new h3_resolution (some snap) storage world = of_snapshot snap storage world

module _ {F S : Type 0} ⦃f : F64 F⦄ ⦃h : H3 F⦄ ⦃c : Codec⦄ ⦃b : StorageBackend F S⦄ where
  unfoldable pub replay : Engine F S → List (ℕ × Command F) → Engine F S
  replay e [] = e
  replay e ((sequence, cmd) ∷ rest) =
      let applied = apply_command e cmd in replay (record applied { wal_sequence = sequence }) rest

  unfoldable pub recover : ℕ → S → World → Result (Engine F S) Text
  recover h3_resolution storage world = do
    snapshot ← map_err to_string (b.load_snapshot storage)
    let engine = of_snapshot_or_new h3_resolution snapshot storage world
    entries ← map_err to_string (b.load_wal_after engine.storage engine.wal_sequence)
    ok (replay engine entries)

  -- The result of a fallible storage call, with the engine over the new storage.
  abbrev pub stored :
      Engine F S → S × Result (Unit {0}) StorageError → Engine F S × Result (Unit {0}) Text
  stored e (s, r) = (record e { storage = s }, map_err to_string r)

  compact : Engine F S × Result (Unit {0}) Text → Engine F S × Result (Unit {0}) Text
  compact (e, err message) = (e, err message)
  compact (e, ok _) = stored e (b.compact_wal e.storage e.wal_sequence)

  unfoldable pub create_snapshot : Engine F S → Engine F S × Result (Unit {0}) Text
  unfolding compact
  create_snapshot e = compact (stored e (b.write_snapshot e.storage (to_snapshot e)))
