-- ===== src/Storage/Sqlite.antt =====
-- rust/crates/spatiad-storage/src/sqlite.rs: the backend over SQLite.
pub mod Laws
pub mod Durable
pub mod Opened
pub mod Events
use spatiad.Base.{
  ℕ, suc, Bool, true, false, Option, none, some, List, [], ◌∷◌, ◌++◌, map, any, ltb, nat_beq,
  nat_eq, Result, ok, err, ◌>>=◌, map_err, if◌then◌else◌, ◌||◌, ◌&&◌, ◌==◌,
}
use mathlib.Core.Option
use spatiad.Base.Text.{Text, text_eq}
use spatiad.Platform.{Rfc3339}
use spatiad.Storage.{
  StorageBackend, StorageError, Command, EngineSnapshot, StoredJobEvent, EventCursor,
}
use spatiad.Storage.Tables.{
  Blob, Row, EventRow, Bincode, Database, executed, failing_as, inserted, rows_of, insert_row,
  replace_row, rows_after, latest_two, latest, entries, is_key, is_before_row, select_events,
  UuidText,
}
use spatiad.Storage.Tables.Opening.{Connection, run_batch, migration, database_of}
use spatiad.Storage.Tables.Statements.{append_blob, write_blob, delete_up_to, insert_event}

abbrev pub SqliteBackend : Type 0
SqliteBackend = Database Text

-- The three settings change no table.
pragmas : List (Connection Text → Connection Text)
pragmas = (λ c. c) ∷ (λ c. c) ∷ (λ c. c) ∷ []

migrated :
    Connection Text × Result (Unit {0}) Text → Connection Text × Result SqliteBackend StorageError
migrated (c, r) = (c, do _ ← map_err StorageError.wal_append r; ok (database_of c))

prepared :
    Connection Text × Result (Unit {0}) Text → Connection Text × Result SqliteBackend StorageError
unfolding migrated
prepared (c, err error) = (c, err (StorageError.wal_append error))
prepared (c, ok _) = migrated (run_batch migration c)

-- `refused` is the error of `Connection::open`, if it fails; the connection is what the file holds.
unfoldable pub open_backend :
    Option Text → Connection Text → Connection Text × Result SqliteBackend StorageError
unfolding pragmas prepared
open_backend (some error) c = (c, err (StorageError.wal_append error))
open_backend none c = prepared (run_batch pragmas c)

-- `<` on texts, code by code.
unfoldable pub text_lt : Text → Text → Bool
text_lt [] [] = false
text_lt [] (_ ∷ _) = true
text_lt (_ ∷ _) [] = false
text_lt (x ∷ xs) (y ∷ ys) = let rest = text_lt xs ys in ltb x y || (nat_beq x y && rest)

unfoldable pub compact_wal : SqliteBackend → ℕ → SqliteBackend × Result (Unit {0}) StorageError
compact_wal s up_to_seq = delete_up_to s up_to_seq

module _ {F : Type 0} ⦃b : Bincode F⦄ where
  unfoldable pub append_wal :
      SqliteBackend → ℕ → Command F → SqliteBackend × Result (Unit {0}) StorageError
  append_wal s seq cmd = append_blob s seq (b.serialize_command cmd)

  unfoldable pub write_snapshot :
      SqliteBackend → EngineSnapshot F → SqliteBackend × Result (Unit {0}) StorageError
  write_snapshot s snapshot = write_blob s snapshot.wal_sequence (b.serialize_snapshot snapshot)

  -- A row that cannot be read is no row.
  read_snapshot : Option Text → Option Blob → Result (Option (EngineSnapshot F)) StorageError
  read_snapshot (some _) found = ok none
  read_snapshot none none = ok none
  read_snapshot none (some blob) = do
    snapshot ← map_err StorageError.snapshot_load (b.deserialize_snapshot blob)
    ok (some snapshot)

  prepared_snapshot :
      Option Text → Option Text → Option Blob → Result (Option (EngineSnapshot F)) StorageError
  unfolding read_snapshot
  prepared_snapshot (some error) _ found = err (StorageError.snapshot_load error)
  prepared_snapshot none failure found = read_snapshot failure found

  unfoldable pub load_snapshot : SqliteBackend → Result (Option (EngineSnapshot F)) StorageError
  unfolding prepared_snapshot
  load_snapshot s = prepared_snapshot s.prepare_error s.query_error (latest s.snapshots)

  unfoldable pub load_wal_after : SqliteBackend → ℕ → Result (List (ℕ × Command F)) StorageError
  load_wal_after s after_seq =
      map_err StorageError.wal_load do rows ← rows_of s (rows_after after_seq s.wal); entries rows

module _ ⦃r : Rfc3339⦄ ⦃u : UuidText⦄ where
  unfoldable pub event_row : ℕ → StoredJobEvent → EventRow Text
  event_row job_id event = record {
    job_id = u.uuid_text job_id;
    sequence = event.sequence;
    occurred_at = r.to_rfc3339 event.occurred_at;
    kind_json = event.kind_json;
  }

  unfoldable pub append_job_event :
      SqliteBackend → ℕ → StoredJobEvent → SqliteBackend × Result (Unit {0}) StorageError
  unfolding event_row
  append_job_event s job_id event = insert_event s (event_row job_id event)

  -- A text that is no instant is read as the present.
  unfoldable pub collect_event_row : ℕ → EventRow Text → StoredJobEvent
  collect_event_row now row = record {
    sequence = row.sequence;
    occurred_at = elim (r.parse_from_rfc3339 row.occurred_at) [
      | none ↦ now
      | some instant ↦ instant
    ];
    kind_json = row.kind_json;
  }

  abbrev pub is_selected : Option EventCursor → EventRow Text → Bool
  is_selected none row = true
  is_selected (some c) row = is_before_row text_lt (r.to_rfc3339 c.occurred_at) c.sequence row

  -- The kinds are not looked at.
  unfoldable pub query_job_events :
      SqliteBackend
      → ℕ
      → ℕ
      → Option EventCursor
      → Option (List Text)
      → Result (List StoredJobEvent) StorageError
  query_job_events s job_id limit cursor _ =
      let max_items = if nat_beq limit 0 then 50 else limit in
      map_err StorageError.event_store do
        rows ←
            rows_of s (
              select_events text_lt (u.uuid_text job_id) (is_selected cursor) max_items
                s.job_events)
        ok (map (collect_event_row s.now) rows)

instance abbrev pub sqlite_backend :
    {F : Type 0} ⦃b : Bincode F⦄ ⦃r : Rfc3339⦄ ⦃u : UuidText⦄ → StorageBackend F SqliteBackend
sqlite_backend = record {
  append_wal = append_wal;
  write_snapshot = write_snapshot;
  load_snapshot = load_snapshot;
  load_wal_after = load_wal_after;
  compact_wal = compact_wal;
  append_job_event = append_job_event;
  query_job_events = query_job_events;
  is_persistent = λ _. true;
}
