-- ===== src/Storage/Postgres.antt =====
-- rust/crates/spatiad-storage/src/pg.rs: the backend over PostgreSQL.
pub mod Durable
pub mod Opened
use spatiad.Base.{
  ℕ, Bool, true, Option, none, some, List, [], ◌∷◌, ◌++◌, map, any, ltb, nat_beq, nat_eq, Result,
  ok, err, ◌>>=◌, map_err, if◌then◌else◌,
}
use spatiad.Base.Text.{Text, text_eq}
use spatiad.Storage.{
  StorageBackend, StorageError, Command, EngineSnapshot, StoredJobEvent, EventCursor,
}
use spatiad.Storage.Tables.{
  Blob, EventRow, Bincode, Database, executed, failing_as, inserted, rows_of, insert_row,
  replace_row, rows_after, latest_two, latest, entries, is_key, is_before_row, select_events,
  UuidText,
}
use spatiad.Storage.Tables.Opening.{Connection, run_batch, migration, database_of}
use spatiad.Storage.Tables.Statements.{append_blob, write_blob, delete_up_to, insert_event}

-- What a TIMESTAMPTZ column keeps of an instant, by the crate postgres.
pub record Timestamptz : Type 0 where
  pub kept : ℕ → ℕ

abbrev pub PostgresBackend : Type 0
PostgresBackend = Database ℕ

-- The batch is one transaction.
migrated :
    Connection ℕ
    → Connection ℕ × Result (Unit {0}) Text
    → Connection ℕ × Result PostgresBackend StorageError
migrated before (c, err error) =
    (record before { write_errors = c.write_errors }, err (StorageError.wal_append error))
migrated before (c, ok _) = (c, ok (database_of c))

-- `refused` is the error of `Client::connect`, if it fails; the connection is what the server holds.
unfoldable pub open_backend :
    Option Text → Connection ℕ → Connection ℕ × Result PostgresBackend StorageError
unfolding migrated
open_backend (some error) c = (c, err (StorageError.wal_append error))
open_backend none c = migrated c (run_batch migration c)

unfoldable pub compact_wal : PostgresBackend → ℕ → PostgresBackend × Result (Unit {0}) StorageError
compact_wal s up_to_seq = delete_up_to s up_to_seq

module _ {F : Type 0} ⦃b : Bincode F⦄ where
  unfoldable pub append_wal :
      PostgresBackend → ℕ → Command F → PostgresBackend × Result (Unit {0}) StorageError
  append_wal s seq cmd = append_blob s seq (b.serialize_command cmd)

  unfoldable pub write_snapshot :
      PostgresBackend → EngineSnapshot F → PostgresBackend × Result (Unit {0}) StorageError
  write_snapshot s snapshot = write_blob s snapshot.wal_sequence (b.serialize_snapshot snapshot)

  -- `rows.first()`.
  read_snapshot : Option Blob → Result (Option (EngineSnapshot F)) Text
  read_snapshot none = ok none
  read_snapshot (some blob) = do snapshot ← b.deserialize_snapshot blob; ok (some snapshot)

  unfoldable pub load_snapshot : PostgresBackend → Result (Option (EngineSnapshot F)) StorageError
  unfolding read_snapshot
  load_snapshot s =
      map_err StorageError.snapshot_load
        do rows ← rows_of s s.snapshots; read_snapshot (latest rows)

  unfoldable pub load_wal_after : PostgresBackend → ℕ → Result (List (ℕ × Command F)) StorageError
  load_wal_after s after_seq =
      map_err StorageError.wal_load do rows ← rows_of s (rows_after after_seq s.wal); entries rows

module _ ⦃k : Timestamptz⦄ ⦃u : UuidText⦄ where
  event_row : ℕ → StoredJobEvent → EventRow ℕ
  event_row job_id event = record {
    job_id = u.uuid_text job_id;
    sequence = event.sequence;
    occurred_at = k.kept event.occurred_at;
    kind_json = event.kind_json;
  }

  unfoldable pub append_job_event :
      PostgresBackend → ℕ → StoredJobEvent → PostgresBackend × Result (Unit {0}) StorageError
  unfolding event_row
  append_job_event s job_id event = insert_event s (event_row job_id event)

  abbrev stored_event : EventRow ℕ → StoredJobEvent
  stored_event row = record {
    sequence = row.sequence;
    occurred_at = row.occurred_at;
    kind_json = row.kind_json;
  }

  abbrev is_selected : Option EventCursor → EventRow ℕ → Bool
  is_selected none row = true
  is_selected (some c) row = is_before_row ltb (k.kept c.occurred_at) c.sequence row

  -- The kinds are not looked at.
  unfoldable pub query_job_events :
      PostgresBackend
      → ℕ
      → ℕ
      → Option EventCursor
      → Option (List Text)
      → Result (List StoredJobEvent) StorageError
  query_job_events s job_id limit cursor _ =
      let max_items = if nat_beq limit 0 then 50 else limit in
      map_err StorageError.event_store do
        rows ←
            rows_of s
              (select_events ltb (u.uuid_text job_id) (is_selected cursor) max_items s.job_events)
        ok (map stored_event rows)

instance abbrev pub postgres_backend :
    {F : Type 0} ⦃b : Bincode F⦄ ⦃k : Timestamptz⦄ ⦃u : UuidText⦄ → StorageBackend F PostgresBackend
postgres_backend = record {
  append_wal = append_wal;
  write_snapshot = write_snapshot;
  load_snapshot = load_snapshot;
  load_wal_after = load_wal_after;
  compact_wal = compact_wal;
  append_job_event = append_job_event;
  query_job_events = query_job_events;
  is_persistent = λ _. true;
}
