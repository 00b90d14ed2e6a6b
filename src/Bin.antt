-- ===== src/Bin.antt =====
-- rust/crates/spatiad-bin/src/main.rs: what the server reads from its environment, and how it starts and
-- stops. The listener and the signals are outside the model.
pub mod Restart
pub mod Reopening
use Prim.Native.Nat.{max, min}
use spatiad.Base.{
  ℕ, zero, suc, ◌-◌, Bool, true, false, not, ◌||◌, Option, none, some, [], leb, Result, ok, err,
  ◌>>=◌, map_err, nat_eq, ◌++◌, ◌==◌, if◌then◌else◌,
}
use spatiad.Base.Text.{Text, codes, text_eq}
use spatiad.Base.Decimal.{parse_u64}
use spatiad.Platform.{F64, H3, World, Rfc3339}
use spatiad.Types.{DriverStatus}
use spatiad.Storage.{StorageBackend, StorageError, InMemoryBackend, in_memory_backend}
use spatiad.Storage.Tables.{Bincode, UuidText}
use spatiad.Storage.Tables.Opening.{Connection}
use spatiad.Storage.Sqlite
use spatiad.Storage.Sqlite.{SqliteBackend, sqlite_backend}
use spatiad.Storage.Postgres
use spatiad.Storage.Postgres.{PostgresBackend, Timestamptz, postgres_backend}
use spatiad.Core.EventKind.{Codec}
use spatiad.Core.State.{Engine, new}
use spatiad.Core.Mutations.{upsert_driver_location}
use spatiad.Core.Recovery.{recover, create_snapshot}
use spatiad.Api.State.{ApiState, Tasks, acquire}
use spatiad.Api.Handlers.{with_dispatch}
use spatiad.Api.RateLimiter
use spatiad.Api.RateLimiter.{new_guard}

-- `std::env::var(name).ok()`.
abbrev pub Environment : Type 0
Environment = Text → Option Text

-- `.unwrap_or(default)`.
abbrev pub unwrap_or : {A : Type 0} → A → Option A → A
unwrap_or default none = default
unwrap_or default (some a) = a

-- `.and_then(|value| value.parse().ok())` at `u64`, and at `u8`.
abbrev parsed_u64 : Option Text → Option ℕ
parsed_u64 none = none
parsed_u64 (some value) = parse_u64 value

abbrev u8_of : Option ℕ → Option ℕ
u8_of none = none
u8_of (some n) = if leb n 255 then some n else none

abbrev clamped : Option ℕ → Option ℕ
clamped none = none
clamped (some n) = some (min (max n 100) 60_000)

unfoldable pub h3_resolution : Environment → ℕ
h3_resolution env = unwrap_or 8 (u8_of (parsed_u64 (env (codes "SPATIAD_H3_RESOLUTION"))))

unfoldable pub storage_backend : Environment → Text
storage_backend env = unwrap_or (codes "memory") (env (codes "SPATIAD_STORAGE_BACKEND"))

unfoldable pub dispatch_rate_limit_per_min : Environment → ℕ
dispatch_rate_limit_per_min env =
    unwrap_or 240 (parsed_u64 (env (codes "SPATIAD_DISPATCH_RATE_LIMIT_PER_MIN")))

unfoldable pub ws_reconnect_max_per_min : Environment → ℕ
ws_reconnect_max_per_min env =
    unwrap_or 30 (parsed_u64 (env (codes "SPATIAD_WS_RECONNECT_MAX_PER_MIN")))

unfoldable pub webhook_timeout_ms : Environment → ℕ
webhook_timeout_ms env =
    unwrap_or 3_000 (clamped (parsed_u64 (env (codes "SPATIAD_WEBHOOK_TIMEOUT_MS"))))

unfoldable pub driver_ttl_secs : Environment → Option ℕ
driver_ttl_secs env = parsed_u64 (env (codes "SPATIAD_DRIVER_TTL_SECS"))

unfoldable pub is_persistent : Environment → Bool
is_persistent env = storage_backend env == codes "sqlite" || storage_backend env == codes "postgres"

module _ {F S : Type 0} where
  unfoldable pub initial_state : Environment → Engine F S → ApiState F S
  initial_state env engine = record {
    dispatch = engine;
    webhook_url = env (codes "SPATIAD_WEBHOOK_URL");
    webhook_secret = env (codes "SPATIAD_WEBHOOK_SECRET");
    webhook_timeout_ms = webhook_timeout_ms env;
    driver_token = env (codes "SPATIAD_DRIVER_TOKEN");
    dispatcher_token = env (codes "SPATIAD_DISPATCHER_TOKEN");
    driver_ttl_secs = driver_ttl_secs env;
    dispatch_rate_limiter = RateLimiter.new (dispatch_rate_limit_per_min env) 60;
    ws_reconnect_guard = new_guard (ws_reconnect_max_per_min env) 60;
    sessions = [];
    channels = [];
    next_channel = 0;
    locks = 0;
  }

-- The engine over a database, from what opening it returns. `context` is the text that stands for a
-- failure to open it.
unfoldable pub recovered_engine :
    {F S : Type 0} ⦃f : F64 F⦄ ⦃h : H3 F⦄ ⦃c : Codec⦄ ⦃b : StorageBackend F S⦄
    → Environment
    → Text
    → Result S StorageError
    → World
    → Result (Engine F S) Text
recovered_engine env context opened world = do
  storage ← map_err (λ _. context) opened
  map_err (λ e. codes "failed to recover engine state: " ++ e)
      (recover (h3_resolution env) storage world)

-- The engine over the memory, with its one driver.
unfoldable pub seeded_engine :
    {F : Type 0} ⦃f : F64 F⦄ ⦃h : H3 F⦄ ⦃c : Codec⦄ → Environment → World → Engine F InMemoryBackend
seeded_engine ⦃f⦄ env world =
    upsert_driver_location (new (h3_resolution env) world) 0x11111111111111111111111111111111
      (codes "tow_truck") (record { latitude = f.decimal 38433 3; longitude = f.decimal 26768 3 })
      DriverStatus.available

unfoldable pub sqlite_path : Environment → Text
sqlite_path env = unwrap_or (codes "spatiad.db") (env (codes "SPATIAD_SQLITE_PATH"))

unfoldable pub postgres_url : Environment → Text
postgres_url env =
    unwrap_or (codes "host=localhost dbname=spatiad") (env (codes "SPATIAD_POSTGRES_URL"))

-- What the paths and the addresses lead to: the error with which opening is refused, if it is, and what
-- the database holds.
pub record Databases : Type 0 where
  pub sqlite : Text → Option Text × Connection Text
  pub postgres : Text → Option Text × Connection ℕ

-- The `Box<dyn StorageBackend>` of the engine is one of the three backends.
pub data Started (F : Type 0) : Type 0 where
  over_sqlite : Engine F SqliteBackend → Started F
  over_postgres : Engine F PostgresBackend → Started F
  over_memory : Engine F InMemoryBackend → Started F

abbrev started_as : {A F E : Type 0} → (A → Started F) → Result A E → Result (Started F) E
started_as over (ok engine) = ok (over engine)
started_as over (err e) = err e

module _ {F : Type 0} ⦃f : F64 F⦄ ⦃h : H3 F⦄ ⦃c : Codec⦄ ⦃b : Bincode F⦄ ⦃u : UuidText⦄
    ⦃r : Rfc3339⦄ ⦃k : Timestamptz⦄ where
  start_sqlite : Environment → Databases → World → Databases × Result (Started F) Text
  start_sqlite env d world =
      let path = sqlite_path env in
      let (refused, file) = d.sqlite path in
      let (file', opened) = Sqlite.open_backend refused file in
      (
        record d { sqlite = λ p. if p == path then (refused, file') else d.sqlite p },
        started_as Started.over_sqlite
            (recovered_engine env (codes "failed to open SQLite database") opened world),
      )

  start_postgres : Environment → Databases → World → Databases × Result (Started F) Text
  start_postgres env d world =
      let url = postgres_url env in
      let (refused, database) = d.postgres url in
      let (database', opened) = Postgres.open_backend refused database in
      (
        record d { postgres = λ a. if a == url then (refused, database') else d.postgres a },
        started_as Started.over_postgres
            (recovered_engine env (codes "failed to connect to PostgreSQL") opened world),
      )

  -- The engine that the process starts with.
  unfoldable pub start : Environment → Databases → World → Databases × Result (Started F) Text
  unfolding start_sqlite start_postgres
  start env d world =
      if storage_backend env == codes "sqlite"
      then start_sqlite env d world
      else if storage_backend env == codes "postgres"
      then start_postgres env d world
      else (d, ok (Started.over_memory (seeded_engine env world)))

module _ {F S : Type 0} ⦃f : F64 F⦄ ⦃h : H3 F⦄ ⦃c : Codec⦄ ⦃b : StorageBackend F S⦄
    ⦃t : Tasks F S⦄ where
  -- A tick of the snapshot task, and the last snapshot before the process ends. A failure is only
  -- logged.
  unfoldable pub snapshot_round : ApiState F S → ApiState F S
  snapshot_round s = let s' = acquire s in with_dispatch s' (create_snapshot s'.dispatch).0

  unfoldable pub shut_down : Environment → ApiState F S → ApiState F S
  shut_down env s = if is_persistent env then snapshot_round s else s

  -- The snapshot task after a number of ticks, of which the first comes at once.
  unfoldable pub snapshot_rounds : ℕ → ApiState F S → ApiState F S
  snapshot_rounds zero s = s
  snapshot_rounds (suc n) s = snapshot_rounds n (snapshot_round s)

  unfoldable pub snapshot_task : Environment → ℕ → ApiState F S → ApiState F S
  snapshot_task env ticks s = if is_persistent env then snapshot_rounds (ticks - 1) s else s
