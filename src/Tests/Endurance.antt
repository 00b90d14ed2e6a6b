-- ===== src/Tests/Endurance.antt =====
-- The theorems on databases that are opened, used, closed and opened again, at concrete inputs.
use spatiad.Base.{
  some, ◌==◌, if◌then◌else◌, ℕ, ◌+◌, ◌≡◌, refl, none, [], ◌∷◌, ok, arith, u64, nat_eq,
}
use spatiad.Base.Text.{Text, codes, text_eq, text_beq}
use spatiad.Base.HashMap
use spatiad.Storage.{Command}
use spatiad.Storage.Tables.{entries, insert_row, inserted, signed_lt}
use spatiad.Storage.Tables.Logged.{logged}
use spatiad.Storage.Tables.Snapshots.{held}
use spatiad.Storage.Tables.Statements.{append_blob, write_blob, delete_up_to}
use spatiad.Storage.Tables.Opening.{
  Connection, run_batch, migration, create_table, database_of, connection_of,
}
use spatiad.Storage.Tables.Sound.{IsSound}
use spatiad.Storage.Sqlite.{
  SqliteBackend, sqlite_backend, open_backend, load_snapshot, load_wal_after, append_wal,
  write_snapshot, compact_wal,
}
use spatiad.Storage.Sqlite.Durable.{sqlite_contract}
use spatiad.Storage.Postgres
use spatiad.Storage.Postgres.{PostgresBackend, postgres_backend}
use spatiad.Storage.Postgres.Durable.{postgres_contract}
use spatiad.Core.State.{Engine, with_storage}
use spatiad.Core.Commands.{append_and_apply, apply_command, apply_cancel_job}
use spatiad.Core.Recovery.{to_snapshot, recover, create_snapshot, of_snapshot_or_new, replay}
use spatiad.Core.Recovery.Replaying.{empty, replay_on}
use spatiad.Core.Recovery.Life.{Life, given, Life-recover, Life-given}
use spatiad.Core.Recovery.Durability.{IsDurable}
use spatiad.Api.State.{acquire}
use spatiad.Bin.{
  Environment, Databases, Started, start, h3_resolution, storage_backend, is_persistent, shut_down,
  snapshot_round,
}
use spatiad.Bin.Reopening.{sqlite_restart, postgres_restart}
use spatiad.Tests.Database.{environment}
use spatiad.Tests.Fixture.{thousandths, grid, mute, world}
use spatiad.Tests.Codec.{small_codec, one_number, exact, small_codec-RoundTrips}
use spatiad.Tests.Ports.{quiet, one_code, server}

-- A file without tables.
abbrev new_file : Connection Text
new_file = record {
  schema_version = none;
  wal = none;
  snapshots = none;
  job_events = none;
  write_errors = λ _. none;
  prepare_error = none;
  query_error = none;
  duplicate = codes "UNIQUE constraint failed";
  now = 1000;
}

-- The empty database.
abbrev created : SqliteBackend
created = record {
  wal = [];
  snapshots = [];
  job_events = [];
  write_errors = λ _. none;
  prepare_error = none;
  query_error = none;
  duplicate = codes "UNIQUE constraint failed";
  now = 1000;
}

migrates_to_empty : (open_backend none new_file).1 ≡ ok created
unfolding open_backend run_batch migration create_table database_of
migrates_to_empty = refl

created-IsSound : IsSound small_codec created
created-IsSound = record {
  prepared = refl;
  queried = refl;
  entries = tt;
  snapshots = tt;
  ascending = refl;
}

abbrev begun : Engine ℕ SqliteBackend
begun = with_storage 8 created world

begun-Life : Life (sqlite_contract small_codec-RoundTrips) 8 [] begun
unfolding sqlite_contract logged held recover load_snapshot load_wal_after of_snapshot_or_new
    entries with_storage replay
begun-Life = Life.started created world begun created-IsSound (omega arith) refl refl refl

-- Job 7 is cancelled, and a snapshot is written.
abbrev used : Engine ℕ SqliteBackend
used = (create_snapshot (append_and_apply begun (Command.cancel_job 7))).0

used-Life : Life (sqlite_contract small_codec-RoundTrips) 8 (Command.cancel_job 7 ∷ []) used
unfolding sqlite_contract append_wal append_blob insert_row inserted signed_lt with_storage
used-Life =
    Life.snapshotted (Command.cancel_job 7 ∷ []) (append_and_apply begun (Command.cancel_job 7))
      (Life.commanded [] begun (Command.cancel_job 7) begun-Life (omega arith) refl)

used_number : used.wal_sequence ≡ 1
unfolding create_snapshot write_snapshot write_blob to_snapshot append_and_apply apply_command
    apply_cancel_job HashMap.get with_storage append_wal append_blob inserted insert_row
used_number = refl

used_stored :
    (append_wal {F = ℕ} used.storage (u64 (used.wal_sequence + 1)) (Command.remove_driver 3)).1
    ≡ ok tt
unfolding create_snapshot write_snapshot write_blob to_snapshot append_and_apply apply_command
    apply_cancel_job HashMap.get with_storage append_wal append_blob inserted insert_row compact_wal
    delete_up_to signed_lt
used_stored = refl

-- Driver 3 is removed.
Life-recover_example :
    let e : Engine ℕ SqliteBackend = append_and_apply used (Command.remove_driver 3) in
    let x = given (empty 8) (Command.cancel_job 7 ∷ Command.remove_driver 3 ∷ []) in
    (to_snapshot e ≡ x)
    × (e' : Engine ℕ SqliteBackend) × (recover 8 e.storage world ≡ ok e')
    × (to_snapshot e' ≡ x)
unfolding sqlite_contract
Life-recover_example =
    Life-recover (sqlite_contract small_codec-RoundTrips) 8
      (Command.cancel_job 7 ∷ Command.remove_driver 3 ∷ [])
      (append_and_apply used (Command.remove_driver 3)) world
      (Life.commanded (Command.cancel_job 7 ∷ []) used (Command.remove_driver 3) used-Life
        (omega (arith, used_number)) used_stored)

begun-IsDurable : IsDurable (sqlite_contract small_codec-RoundTrips) 8 begun
begun-IsDurable = (Life-given (sqlite_contract small_codec-RoundTrips) 8 [] begun begun-Life).1

abbrev left : SqliteBackend
left = (shut_down environment (server begun)).dispatch.storage

abbrev found : SqliteBackend
found = database_of (connection_of (1 ∷ []) left)

-- A database without tables.
abbrev no_database : Connection ℕ
no_database = record {
  schema_version = none;
  wal = none;
  snapshots = none;
  job_events = none;
  write_errors = λ _. none;
  prepare_error = none;
  query_error = none;
  duplicate = codes "duplicate key value";
  now = 1000;
}

abbrev databases : Databases
databases = record {
  sqlite = λ _. (none, connection_of (1 ∷ []) left);
  postgres = λ _. (some (codes "refused"), no_database);
}

sqlite_restart_example :
    (next : Engine ℕ SqliteBackend) × ((start environment databases world).1
      ≡ ok (Started.over_sqlite next))
    × (to_snapshot next ≡ to_snapshot begun)
    × IsDurable (sqlite_contract small_codec-RoundTrips) 8 next
unfolding h3_resolution storage_backend is_persistent text_beq acquire open_backend run_batch
    connection_of shut_down snapshot_round create_snapshot write_snapshot write_blob to_snapshot
    with_storage compact_wal delete_up_to migration create_table
sqlite_restart_example =
    sqlite_restart small_codec-RoundTrips environment world none (1 ∷ []) databases (server begun)
      found refl begun-IsDurable refl refl

-- The same over PostgreSQL, on an empty database.
abbrev postgres_created : PostgresBackend
postgres_created = record {
  wal = [];
  snapshots = [];
  job_events = [];
  write_errors = λ _. none;
  prepare_error = none;
  query_error = none;
  duplicate = codes "duplicate key value";
  now = 1000;
}

abbrev postgres_begun : Engine ℕ PostgresBackend
postgres_begun = with_storage 8 postgres_created world

postgres_begun-IsDurable : IsDurable (postgres_contract small_codec-RoundTrips) 8 postgres_begun
unfolding postgres_contract logged held with_storage to_snapshot replay_on
postgres_begun-IsDurable = record {
  valid = record {
    prepared = refl;
    queried = refl;
    entries = tt;
    snapshots = tt;
    ascending = refl;
  };
  bounded = omega arith;
  rebuilt = refl;
  below = tt;
  base_le = omega arith;
}

abbrev postgres_environment : Environment
postgres_environment name =
    if name == codes "SPATIAD_STORAGE_BACKEND" then some (codes "postgres") else none

abbrev postgres_left : PostgresBackend
postgres_left = (shut_down postgres_environment (server postgres_begun)).dispatch.storage

abbrev postgres_databases : Databases
postgres_databases = record {
  sqlite = λ _. (some (codes "refused"), new_file);
  postgres = λ _. (none, connection_of (1 ∷ []) postgres_left);
}

postgres_restart_example :
    (next : Engine ℕ PostgresBackend) × ((start postgres_environment postgres_databases world).1
      ≡ ok (Started.over_postgres next))
    × (to_snapshot next ≡ to_snapshot postgres_begun)
    × IsDurable (postgres_contract small_codec-RoundTrips) 8 next
unfolding h3_resolution storage_backend is_persistent text_beq acquire Postgres.open_backend
    run_batch connection_of shut_down snapshot_round create_snapshot Postgres.write_snapshot
    write_blob to_snapshot with_storage Postgres.compact_wal delete_up_to migration create_table
postgres_restart_example =
    postgres_restart small_codec-RoundTrips postgres_environment world none (1 ∷ [])
      postgres_databases (server postgres_begun)
      (database_of (connection_of (1 ∷ []) postgres_left)) refl postgres_begun-IsDurable refl refl
