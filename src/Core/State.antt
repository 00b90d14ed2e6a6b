-- ===== src/Core/State.antt =====
-- The engine's state and the values that its methods return.
use spatiad.Base.{ℕ, Bool, Option, List, []}
use spatiad.Base.HashMap.{HashMap}
use spatiad.Base.HashSet.{HashSet}
use spatiad.Platform.{World}
use spatiad.Types.{Coordinates, DriverSnapshot, JobRequest, OfferRecord}
use spatiad.Storage.{InMemoryBackend, in_memory}
use spatiad.SpatialIndex
use spatiad.SpatialIndex.{SpatialIndex}
use spatiad.Core.EventKind.{JobEventKind}

pub data CoreError : Type 0 where
  offer_not_found offer_not_pending offer_expired : CoreError

pub record PendingDriverOffer (F : Type 0) : Type 0 where
  pub offer_id : ℕ
  pub job_id : ℕ
  pub pickup : Coordinates F
  pub dropoff : Option (Coordinates F)
  pub expires_at : ℕ

pub record CancelledDriverOffer : Type 0 where
  pub driver_id : ℕ
  pub offer_id : ℕ

pub record ExpiredOffer : Type 0 where
  pub offer_id : ℕ
  pub driver_id : ℕ
  pub job_id : ℕ

pub data JobDispatchState : Type 0 where
  unknown_job pending searching cancelled : JobDispatchState
  matched : ℕ → ℕ → JobDispatchState
  exhausted : JobDispatchState

pub record JobEventRecord : Type 0 where
  pub sequence : ℕ
  pub occurred_at : ℕ
  pub kind : JobEventKind

pub record EngineStats : Type 0 where
  pub drivers : ℕ
  pub jobs : ℕ
  pub offers : ℕ
  pub pending_offers : ℕ
  pub cancelled_jobs : ℕ
  pub wal_sequence : ℕ
  pub storage_persistent : Bool

pub record JobEventsCursor : Type 0 where
  pub occurred_at : ℕ
  pub sequence : ℕ

-- The fields of the source, and `world`: what the clock and the id generator will still return.
pub record Engine (F S : Type 0) : Type 0 where
  pub h3_resolution : ℕ
  pub spatial : SpatialIndex
  pub drivers : HashMap ℕ (DriverSnapshot F)
  pub jobs : HashMap ℕ (JobRequest F)
  pub offers : HashMap ℕ OfferRecord
  pub cancelled_jobs : HashSet ℕ
  pub job_events : HashMap ℕ (List JobEventRecord)
  pub job_event_sequences : HashMap ℕ ℕ
  pub storage : S
  pub wal_sequence : ℕ
  pub world : World

abbrev pub max_job_events : ℕ
max_job_events = 200

unfoldable pub with_storage : {F S : Type 0} → ℕ → S → World → Engine F S
with_storage h3_resolution storage world = record {
  h3_resolution = h3_resolution;
  spatial = SpatialIndex.new h3_resolution;
  drivers = [];
  jobs = [];
  offers = [];
  cancelled_jobs = [];
  job_events = [];
  job_event_sequences = [];
  storage = storage;
  wal_sequence = 0;
  world = world;
}

unfoldable pub new : {F : Type 0} → ℕ → World → Engine F InMemoryBackend
unfolding with_storage
new h3_resolution world = with_storage h3_resolution in_memory world
