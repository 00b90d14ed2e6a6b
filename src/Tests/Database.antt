-- ===== src/Tests/Database.antt =====
-- The theorems on the SQLite backend and on a restart, at concrete inputs.
use spatiad.Base.{
  List, map, filter, ◌&&◌, true, ℕ, nat_eq, ◌≡◌, refl, none, some, [], ◌∷◌, ◌==◌, if◌then◌else◌, ok,
}
use spatiad.Base.Text.{Text, codes, text_eq}
use spatiad.Storage.{Command, EngineSnapshot, StoredJobEvent}
use spatiad.Storage.Tables.{Bincode, signed_lt, entries}
use spatiad.Storage.Tables.{EventRow}
use spatiad.Storage.Tables.Newest.{IsNewest}
use spatiad.Storage.Sqlite.Events.{query_job_events-IsNewest}
use spatiad.Storage.Sqlite.{
  SqliteBackend, append_wal, load_wal_after, write_snapshot, load_snapshot, query_job_events,
  collect_event_row, text_lt,
}
use spatiad.Storage.Sqlite.Laws.{append_wal-load_wal_after, write_snapshot-load_snapshot}
use spatiad.Bin.{Environment}
use spatiad.Tests.Fixture.{thousandths, grid, mute}
use spatiad.Tests.Log.{log_backend}
use spatiad.Tests.Ports.{quiet, one_code}
use spatiad.Tests.Codec.{one_number}

abbrev empty_snapshot : EngineSnapshot ℕ
empty_snapshot = record {
  h3_resolution = 8;
  drivers = [];
  jobs = [];
  offers = [];
  cancelled_jobs = [];
  job_event_sequences = [];
  wal_sequence = 5;
}

-- Every blob is that of one command and of one snapshot.
instance abbrev one_blob : Bincode ℕ
one_blob = record {
  serialize_command = λ _. ok (1 ∷ []);
  deserialize_command = λ _. ok (Command.cancel_job 7);
  serialize_snapshot = λ _. ok (2 ∷ []);
  deserialize_snapshot = λ _. ok empty_snapshot;
}

-- A log with the entries 3 and 4, and snapshots of the numbers 1 and 2.
abbrev database : SqliteBackend
database = record {
  wal = (3, 1 ∷ []) ∷ (4, 1 ∷ []) ∷ [];
  snapshots = (1, 2 ∷ []) ∷ (2, 2 ∷ []) ∷ [];
  job_events = [];
  write_errors = λ _. none;
  prepare_error = none;
  query_error = none;
  duplicate = codes "UNIQUE constraint failed";
  now = 1000;
}

append_wal-load_wal_after_example :
    load_wal_after {F = ℕ} (append_wal {F = ℕ} database 5 (Command.cancel_job 7)).0 3
    ≡ ok ((4, Command.cancel_job 7) ∷ (5, Command.cancel_job 7) ∷ [])
unfolding signed_lt load_wal_after entries
append_wal-load_wal_after_example =
    (append_wal-load_wal_after database 3 5 (Command.cancel_job 7) (1 ∷ [])
      ((4, Command.cancel_job 7) ∷ []) refl (refl, refl) refl refl refl refl refl).1

write_snapshot-load_snapshot_example :
    load_snapshot (write_snapshot database empty_snapshot).0 ≡ ok (some empty_snapshot)
unfolding signed_lt
write_snapshot-load_snapshot_example =
    (write_snapshot-load_snapshot database empty_snapshot (2 ∷ []) refl refl (refl, refl) refl refl
      refl refl).1

-- Only the backend is named.
abbrev pub environment : Environment
environment name = if name == codes "SPATIAD_STORAGE_BACKEND" then some (codes "sqlite") else none

-- Events of the jobs 7 and 8.
abbrev event_database : SqliteBackend
event_database = record database {
  job_events =
      record { job_id = 7 ∷ []; sequence = 1; occurred_at = 10 ∷ []; kind_json = [] }
      ∷ record { job_id = 8 ∷ []; sequence = 1; occurred_at = 11 ∷ []; kind_json = [] }
      ∷ [];
}

query_job_events-IsNewest_example :
    (selected : List (EventRow Text)) × (query_job_events event_database 7 50 none none
      ≡ ok (map (collect_event_row 1000) selected))
    × IsNewest text_lt
        (filter (λ row. row.job_id == 7 ∷ [] && true) event_database.job_events)
        50
        selected
query_job_events-IsNewest_example =
    query_job_events-IsNewest event_database 7 50 none none (refl, refl)

abbrev second_event : StoredJobEvent
second_event = record { sequence = 2; occurred_at = 12; kind_json = [] }
