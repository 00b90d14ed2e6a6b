-- ===== src/Storage/Sqlite/Opened.antt =====
-- rust/crates/spatiad-storage/src/sqlite.rs: opening a database file.
use spatiad.Base.{◌≡◌, sym, Option, none, some, Result, ok, err, ok_injective, arith}
use spatiad.Base.Text.{Text}
use spatiad.Storage.Tables.{Bincode}
use spatiad.Storage.Tables.Opening.{Connection, run_batch, migration, database_of}
use spatiad.Storage.Tables.Migration.{
  SameRows, same_rows, SameRows-trans, run_batch-SameRows, migration-SameRows, SameRows-IsSound,
}
use spatiad.Storage.Tables.Sound.{IsSound, log_of, saved_of}
use spatiad.Storage.Sqlite.{SqliteBackend, pragmas, migrated, prepared, open_backend}

migrated_ok :
    (c : Connection Text) (r : Result (Unit {0}) Text) (s : SqliteBackend)
    → (migrated (c, r)).1 ≡ ok s
    → s ≡ database_of c
unfolding migrated
migrated_ok c (err e) s p = ground (arith, p)
migrated_ok c (ok _) s p = sym (ok_injective (database_of c) s p)

prepared-SameRows :
    (c : Connection Text) (r : Result (Unit {0}) Text) → SameRows c (prepared (c, r)).0
unfolding prepared migrated
prepared-SameRows c (err e) = same_rows c
prepared-SameRows c (ok _) = migration-SameRows c

prepared_ok :
    (c : Connection Text) (r : Result (Unit {0}) Text) (s : SqliteBackend)
    → (prepared (c, r)).1 ≡ ok s
    → s ≡ database_of (prepared (c, r)).0
unfolding prepared migrated
prepared_ok c (err e) s p = ground (arith, p)
prepared_ok c (ok _) s p = migrated_ok (run_batch migration c).0 (run_batch migration c).1 s p

-- Opening a file, whatever comes of it, loses no row.
pub open_backend-SameRows :
    (refused : Option Text) (c : Connection Text) → SameRows c (open_backend refused c).0
unfolding open_backend pragmas
open_backend-SameRows (some e) c = same_rows c
open_backend-SameRows none c =
    let first = run_batch pragmas c in
    SameRows-trans c first.0 (prepared first).0
      (run_batch-SameRows pragmas c (same_rows, (same_rows, (same_rows, tt))))
      (prepared-SameRows first.0 first.1)

open_backend_ok :
    (refused : Option Text) (c : Connection Text) (s : SqliteBackend)
    → (open_backend refused c).1 ≡ ok s
    → s ≡ database_of (open_backend refused c).0
unfolding open_backend
open_backend_ok (some e) c s p = ground (arith, p)
open_backend_ok none c s p = prepared_ok (run_batch pragmas c).0 (run_batch pragmas c).1 s p

-- Opening a database whose rows are sound, if it succeeds, gives a sound backend with the log and the
-- snapshot that were there.
pub open_backend-IsSound :
    {F : Type 0} (b : Bincode F) (refused : Option Text) (c : Connection Text) (s : SqliteBackend)
    → IsSound b (database_of c)
    → (open_backend refused c).1 ≡ ok s
    → IsSound b s
      × (log_of b s ≡ log_of b (database_of c))
      × (saved_of b s ≡ saved_of b (database_of c))
open_backend-IsSound b refused c s v p =
    rw (open_backend_ok refused c s p)
      (SameRows-IsSound b c (open_backend refused c).0 (open_backend-SameRows refused c) v)
