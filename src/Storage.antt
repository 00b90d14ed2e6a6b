-- ===== src/Storage.antt =====
-- rust/crates/spatiad-storage/src/lib.rs: the commands of the write-ahead log, the snapshot, the
-- trait of the storage backends and the backend that stores nothing.
pub mod Contract
pub mod Tables
pub mod Sqlite
pub mod Postgres
use spatiad.Base.{ℕ, Bool, false, Option, none, List, [], ◌++◌, Result, ok}
use spatiad.Base.Text.{Text, codes}
use spatiad.Base.HashMap.{HashMap}
use spatiad.Base.HashSet.{HashSet}
use spatiad.Types.{Coordinates, DriverStatus, DriverSnapshot, JobRequest, OfferRecord}

pub data StorageError : Type 0 where
  wal_append snapshot_write snapshot_load wal_load event_store : Text → StorageError

-- The messages of `#[error(...)]`.
unfoldable pub to_string : StorageError → Text
to_string (wal_append e) = codes "WAL append failed: " ++ e
to_string (snapshot_write e) = codes "snapshot write failed: " ++ e
to_string (snapshot_load e) = codes "snapshot load failed: " ++ e
to_string (wal_load e) = codes "WAL load failed: " ++ e
to_string (event_store e) = codes "event store error: " ++ e

pub data Command (F : Type 0) : Type 0 where
  upsert_driver_location : ℕ → Text → Coordinates F → DriverStatus → ℕ → Command F
  register_job : JobRequest F → Command F
  create_offer : OfferRecord → Command F
  accept_offer : ℕ → ℕ → Command F
  reject_offer : ℕ → ℕ → Command F
  mark_offer_expired : ℕ → Command F
  mark_offer_cancelled : ℕ → Command F
  cancel_job : ℕ → Command F
  remove_driver : ℕ → Command F
  record_webhook_delivery_failed : ℕ → ℕ → Command F

pub record EngineSnapshot (F : Type 0) : Type 0 where
  pub h3_resolution : ℕ
  pub drivers : HashMap ℕ (DriverSnapshot F)
  pub jobs : HashMap ℕ (JobRequest F)
  pub offers : HashMap ℕ OfferRecord
  pub cancelled_jobs : HashSet ℕ
  pub job_event_sequences : HashMap ℕ ℕ
  pub wal_sequence : ℕ

pub record StoredJobEvent : Type 0 where
  pub sequence : ℕ
  pub occurred_at : ℕ
  pub kind_json : Text

pub record EventCursor : Type 0 where
  pub occurred_at : ℕ
  pub sequence : ℕ

-- The trait `StorageBackend`. `S` is what a backend keeps behind its `&self` methods.
pub record StorageBackend (F S : Type 0) : Type 0 where
  pub append_wal : S → ℕ → Command F → S × Result (Unit {0}) StorageError
  pub write_snapshot : S → EngineSnapshot F → S × Result (Unit {0}) StorageError
  pub load_snapshot : S → Result (Option (EngineSnapshot F)) StorageError
  pub load_wal_after : S → ℕ → Result (List (ℕ × Command F)) StorageError
  pub compact_wal : S → ℕ → S × Result (Unit {0}) StorageError
  pub append_job_event : S → ℕ → StoredJobEvent → S × Result (Unit {0}) StorageError
  pub query_job_events :
      S
      → ℕ
      → ℕ
      → Option EventCursor
      → Option (List Text)
      → Result (List StoredJobEvent) StorageError
  pub is_persistent : S → Bool

pub data InMemoryBackend : Type 0 where
  in_memory : InMemoryBackend

instance abbrev pub in_memory_backend : {F : Type 0} → StorageBackend F InMemoryBackend
in_memory_backend = record {
  append_wal = λ s _ _. (s, ok tt);
  write_snapshot = λ s _. (s, ok tt);
  load_snapshot = λ _. ok none;
  load_wal_after = λ _ _. ok [];
  compact_wal = λ s _. (s, ok tt);
  append_job_event = λ s _ _. (s, ok tt);
  query_job_events = λ _ _ _ _ _. ok [];
  is_persistent = λ _. false;
}
