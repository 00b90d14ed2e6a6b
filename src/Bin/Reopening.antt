-- ===== src/Bin/Reopening.antt =====
-- rust/crates/spatiad-bin/src/main.rs: the next start of a server on its database.
use spatiad.Base.{refl, ℕ, ◌≡◌, true, Option, List, ok}
use spatiad.Base.Text.{Text, codes, text_beq}
use spatiad.Platform.{F64, H3, World, Rfc3339}
use spatiad.Storage.Tables.{Bincode, UuidText}
use spatiad.Storage.Tables.Opening.{connection_of, database_of}
use spatiad.Storage.Tables.Sound.{RoundTrips}
use spatiad.Storage.Sqlite
use spatiad.Storage.Sqlite.{SqliteBackend, sqlite_backend}
use spatiad.Storage.Sqlite.Durable.{sqlite_contract}
use spatiad.Storage.Sqlite.Opened.{open_backend-IsSound as file-IsSound}
use spatiad.Storage.Postgres
use spatiad.Storage.Postgres.{PostgresBackend, Timestamptz, postgres_backend}
use spatiad.Storage.Postgres.Durable.{postgres_contract}
use spatiad.Storage.Postgres.Opened.{open_backend-IsSound as server-IsSound}
use spatiad.Core.EventKind.{Codec}
use spatiad.Core.State.{Engine}
use spatiad.Core.Recovery.{to_snapshot}
use spatiad.Core.Recovery.Durability.{IsDurable}
use spatiad.Api.State.{ApiState, Tasks, acquire}
use spatiad.Bin.{
  Databases, Started, start, sqlite_path, postgres_url, storage_backend, Environment, h3_resolution,
  is_persistent, shut_down,
}
use spatiad.Bin.Restart.{shut_down-reopened, shut_down-valid}

sqlite_is_persistent :
    (env : Environment) → storage_backend env ≡ codes "sqlite" → is_persistent env ≡ true
unfolding is_persistent text_beq
sqlite_is_persistent env p = rw p refl

postgres_is_persistent :
    (env : Environment) → storage_backend env ≡ codes "postgres" → is_persistent env ≡ true
unfolding is_persistent text_beq
postgres_is_persistent env p = rw p refl

module _ {F : Type 0} ⦃f : F64 F⦄ ⦃h : H3 F⦄ ⦃c : Codec⦄ ⦃b : Bincode F⦄ ⦃u : UuidText⦄
    ⦃r : Rfc3339⦄ ⦃k : Timestamptz⦄ (codec : RoundTrips b) (env : Environment) (world : World)
    (refused : Option Text) (versions : List ℕ) where
  -- A server over SQLite whose file can give back the durable state is shut down, whether its last
  -- snapshot succeeds or not. If bincode reads back what it wrote and opening the file again
  -- succeeds, then the process starts again over SQLite, with the same durable state, and its file
  -- still gives it back.
  pub sqlite_restart :
      ⦃t : Tasks F SqliteBackend⦄ (d : Databases) (s : ApiState F SqliteBackend)
      (found : SqliteBackend)
      → storage_backend env ≡ codes "sqlite"
      → IsDurable (sqlite_contract codec) (h3_resolution env) (acquire s).dispatch
      → let left = connection_of versions (shut_down env s).dispatch.storage in
        d.sqlite (sqlite_path env) ≡ (refused, left)
        → (Sqlite.open_backend refused left).1 ≡ ok found
        → (next : Engine F SqliteBackend) × ((start env d world).1 ≡ ok (Started.over_sqlite next))
          × (to_snapshot next ≡ to_snapshot (acquire s).dispatch)
          × IsDurable (sqlite_contract codec) (h3_resolution env) next
  unfolding connection_of database_of sqlite_contract start text_beq
  sqlite_restart d s found backend durable there opened =
      let left = (shut_down env s).dispatch.storage in
      let persistent = sqlite_is_persistent env backend in
      let valid = shut_down-valid (sqlite_contract codec) env s persistent durable in
      let same = file-IsSound b refused (connection_of versions left) found valid opened in
      let (next, recovered, same_state, again) =
        shut_down-reopened (sqlite_contract codec) env (codes "failed to open SQLite database") s
          found world persistent durable same in
      rw backend (rw there (rw opened (rw recovered (next, refl, same_state, again))))

  -- A server over PostgreSQL whose database can give back the durable state is shut down, whether
  -- its last snapshot succeeds or not. If bincode reads back what it wrote and connecting again
  -- succeeds, then the process starts again over PostgreSQL, with the same durable state, and its
  -- database still gives it back.
  pub postgres_restart :
      ⦃t : Tasks F PostgresBackend⦄ (d : Databases) (s : ApiState F PostgresBackend)
      (found : PostgresBackend)
      → storage_backend env ≡ codes "postgres"
      → IsDurable (postgres_contract codec) (h3_resolution env) (acquire s).dispatch
      → let left = connection_of versions (shut_down env s).dispatch.storage in
        d.postgres (postgres_url env) ≡ (refused, left)
        → (Postgres.open_backend refused left).1 ≡ ok found
        → (next : Engine F PostgresBackend) × ((start env d world).1
            ≡ ok (Started.over_postgres next))
          × (to_snapshot next ≡ to_snapshot (acquire s).dispatch)
          × IsDurable (postgres_contract codec) (h3_resolution env) next
  unfolding connection_of database_of postgres_contract start text_beq
  postgres_restart d s found backend durable there opened =
      let left = (shut_down env s).dispatch.storage in
      let persistent = postgres_is_persistent env backend in
      let valid = shut_down-valid (postgres_contract codec) env s persistent durable in
      let same = server-IsSound b refused (connection_of versions left) found valid opened in
      let (next, recovered, same_state, again) =
        shut_down-reopened (postgres_contract codec) env (codes "failed to connect to PostgreSQL") s
          found world persistent durable same in
      rw backend (rw there (rw opened (rw recovered (next, refl, same_state, again))))
