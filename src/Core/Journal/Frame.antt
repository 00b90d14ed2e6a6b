-- ===== src/Core/Journal/Frame.antt =====
-- The tables that `push_job_event` does not write.
use spatiad.Base.{ℕ, ◌≡◌, refl, List, [], ◌∷◌}
use spatiad.Storage.{StorageBackend}
use spatiad.Core.EventKind.{JobEventKind, Codec}
use spatiad.Core.State.{Engine}
use spatiad.Core.Journal.{push_job_event, push_job_events}

-- The tables that `push_job_event` does not write.
pub record SameTables {F S : Type 0} (e e' : Engine F S) : Type 0 where
  pub h3_resolution : e'.h3_resolution ≡ e.h3_resolution
  pub spatial : e'.spatial ≡ e.spatial
  pub drivers : e'.drivers ≡ e.drivers
  pub jobs : e'.jobs ≡ e.jobs
  pub offers : e'.offers ≡ e.offers
  pub cancelled_jobs : e'.cancelled_jobs ≡ e.cancelled_jobs
  pub wal_sequence : e'.wal_sequence ≡ e.wal_sequence

module _ {F S : Type 0} ⦃c : Codec⦄ ⦃b : StorageBackend F S⦄ where
  pub push_job_event-SameTables :
      (e : Engine F S) (job_id : ℕ) (kind : JobEventKind)
      → SameTables e (push_job_event e job_id kind)
  unfolding push_job_event
  push_job_event-SameTables e job_id kind = record {
    h3_resolution = refl;
    spatial = refl;
    drivers = refl;
    jobs = refl;
    offers = refl;
    cancelled_jobs = refl;
    wal_sequence = refl;
  }

  pub push_job_events-SameTables :
      (e : Engine F S) (job_id : ℕ) (kinds : List JobEventKind)
      → SameTables e (push_job_events e job_id kinds)
  unfolding push_job_events push_job_event
  push_job_events-SameTables e job_id [] = record {
    h3_resolution = refl;
    spatial = refl;
    drivers = refl;
    jobs = refl;
    offers = refl;
    cancelled_jobs = refl;
    wal_sequence = refl;
  }
  push_job_events-SameTables e job_id (kind ∷ kinds) =
      let rest = push_job_events-SameTables (push_job_event e job_id kind) job_id kinds in
      record {
        h3_resolution = rest.h3_resolution;
        spatial = rest.spatial;
        drivers = rest.drivers;
        jobs = rest.jobs;
        offers = rest.offers;
        cancelled_jobs = rest.cancelled_jobs;
        wal_sequence = rest.wal_sequence;
      }
