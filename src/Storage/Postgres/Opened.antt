-- ===== src/Storage/Postgres/Opened.antt =====
-- rust/crates/spatiad-storage/src/pg.rs: opening a connection to the server.
use spatiad.Base.{ℕ, ◌≡◌, sym, Option, none, some, Result, ok, err, ok_injective, arith}
use spatiad.Base.Text.{Text}
use spatiad.Storage.Tables.{Bincode}
use spatiad.Storage.Tables.Opening.{Connection, run_batch, migration, database_of}
use spatiad.Storage.Tables.Migration.{SameRows, same_rows, migration-SameRows, SameRows-IsSound}
use spatiad.Storage.Tables.Sound.{IsSound, log_of, saved_of}
use spatiad.Storage.Postgres.{PostgresBackend, migrated, open_backend}

migrated-SameRows :
    (before c : Connection ℕ) (r : Result (Unit {0}) Text)
    → SameRows before c
    → SameRows before (migrated before (c, r)).0
unfolding migrated
migrated-SameRows before c (err e) same = same_rows before
migrated-SameRows before c (ok _) same = same

migrated_ok :
    (before c : Connection ℕ) (r : Result (Unit {0}) Text) (s : PostgresBackend)
    → (migrated before (c, r)).1 ≡ ok s
    → s ≡ database_of (migrated before (c, r)).0
unfolding migrated
migrated_ok before c (err e) s p = ground (arith, p)
migrated_ok before c (ok _) s p = sym (ok_injective (database_of c) s p)

-- Connecting, whatever comes of it, loses no row.
pub open_backend-SameRows :
    (refused : Option Text) (c : Connection ℕ) → SameRows c (open_backend refused c).0
unfolding open_backend
open_backend-SameRows (some e) c = same_rows c
open_backend-SameRows none c =
    migrated-SameRows c (run_batch migration c).0 (run_batch migration c).1 (migration-SameRows c)

open_backend_ok :
    (refused : Option Text) (c : Connection ℕ) (s : PostgresBackend)
    → (open_backend refused c).1 ≡ ok s
    → s ≡ database_of (open_backend refused c).0
unfolding open_backend
open_backend_ok (some e) c s p = ground (arith, p)
open_backend_ok none c s p = migrated_ok c (run_batch migration c).0 (run_batch migration c).1 s p

-- Opening a database whose rows are sound, if it succeeds, gives a sound backend with the log and the
-- snapshot that were there.
pub open_backend-IsSound :
    {F : Type 0} (b : Bincode F) (refused : Option Text) (c : Connection ℕ) (s : PostgresBackend)
    → IsSound b (database_of c)
    → (open_backend refused c).1 ≡ ok s
    → IsSound b s
      × (log_of b s ≡ log_of b (database_of c))
      × (saved_of b s ≡ saved_of b (database_of c))
open_backend-IsSound b refused c s v p =
    rw (open_backend_ok refused c s p)
      (SameRows-IsSound b c (open_backend refused c).0 (open_backend-SameRows refused c) v)
