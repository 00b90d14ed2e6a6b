-- ===== src/Core/Journal.antt =====
-- `push_job_event`: the numbered event history of each job.
pub mod Frame
pub mod Numbering
use spatiad.Base.{
  ℕ, ◌+◌, ◌-◌, Option, none, some, List, [], ◌∷◌, ◌++◌, length, drop, ltb, u64, nat_eq,
  if◌then◌else◌,
}
use spatiad.Base.Text.{Text}
use spatiad.Base.HashMap
use spatiad.Base.HashMap.{HashMap}
use spatiad.Platform.{utc_now, after_now}
use spatiad.Storage.{StorageBackend, StoredJobEvent}
use spatiad.Core.EventKind.{JobEventKind, Codec}
use spatiad.Core.State.{Engine, JobEventRecord, max_job_events}

-- `*entry(job_id).or_insert(0)`.
abbrev pub sequence_of : ℕ → HashMap ℕ ℕ → ℕ
sequence_of job_id sequences = elim (HashMap.get job_id sequences) [ none ↦ 0 | some n ↦ n ]

-- `entry(job_id).or_default()`.
abbrev pub events_of : ℕ → HashMap ℕ (List JobEventRecord) → List JobEventRecord
events_of job_id events = elim (HashMap.get job_id events) [ none ↦ [] | some es ↦ es ]

abbrev or_default : Option Text → Text
or_default none = []
or_default (some t) = t

-- The oldest entries over the limit are drained.
unfoldable pub trim : List JobEventRecord → List JobEventRecord
trim entries =
    if ltb max_job_events (length entries)
    then drop (length entries - max_job_events) entries
    else entries

module _ {F S : Type 0} ⦃c : Codec⦄ ⦃b : StorageBackend F S⦄ where
  persist_job_event : Engine F S → ℕ → JobEventRecord → S
  persist_job_event e job_id event =
      if b.is_persistent e.storage
      then (b.append_job_event e.storage job_id (record {
        sequence = event.sequence;
        occurred_at = event.occurred_at;
        kind_json = or_default (c.kind_to_json event.kind);
      })).0
      else e.storage

  unfoldable pub push_job_event : Engine F S → ℕ → JobEventKind → Engine F S
  unfolding persist_job_event
  push_job_event e job_id kind =
      let next_sequence = u64 (sequence_of job_id e.job_event_sequences + 1) in
      let event : JobEventRecord = record {
        sequence = next_sequence;
        occurred_at = utc_now e.world;
        kind = kind;
      } in
      record e {
        job_event_sequences = HashMap.insert job_id next_sequence e.job_event_sequences;
        world = after_now e.world;
        storage = persist_job_event e job_id event;
        job_events =
            HashMap.insert job_id (trim (events_of job_id e.job_events ++ (event ∷ [])))
              e.job_events;
      }

  -- A loop that pushes an event for each item.
  unfoldable pub push_job_events : Engine F S → ℕ → List JobEventKind → Engine F S
  push_job_events e job_id [] = e
  push_job_events e job_id (kind ∷ kinds) =
      push_job_events (push_job_event e job_id kind) job_id kinds
