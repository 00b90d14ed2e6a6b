-- ===== src/Lib.antt =====
-- spatiad: a spatial dispatch engine that matches drivers to jobs (rust/crates). The model is a
-- shallow embedding of the Rust sources.
--
-- The program. Drivers report their place; clients submit jobs; the engine (spatiad-core) offers a
-- job to near drivers, records the answers, and locks a match. Each change is a command that is
-- appended to a write-ahead log (spatiad-storage) and then applied to the tables; a snapshot and the
-- log give the tables back after a crash. The dispatch service (spatiad-dispatch) drives the engine:
-- it makes the first offer of a job and the next one after a rejection or an expiry. The server
-- (spatiad-api) checks tokens, limits and inputs, passes the calls on, serves the connected drivers,
-- and reports matches to a webhook. The process (spatiad-bin) reads its environment, recovers the
-- engine from a database, and writes snapshots by a timer and at its end.
--
-- The files.
--   Base          numbers, lists, results, text, and the maps and sets of the standard library
--   Platform      floats, the crate h3o, the clock and the id generator, as parameters
--   Types         rust/crates/spatiad-types/src/lib.rs
--   Storage       rust/crates/spatiad-storage/src: commands, snapshot and the backend trait of lib.rs;
--     Contract             what a backend promises of its log and its snapshot, for the engine
--     Tables               the tables of the databases, and the SQL statements on them: Statements
--                          has those on the log, the snapshots and the events, Opening `migrate`
--     Sqlite, Postgres     the backends of sqlite.rs and pg.rs, which meet the contract
--   SpatialIndex  rust/crates/spatiad-h3/src/lib.rs
--   Core          rust/crates/spatiad-core/src/lib.rs, the methods of `Engine`:
--     EventKind, State     the data types
--     Journal              push_job_event
--     Commands             apply_command, append_and_apply
--     Mutations            the methods on drivers and jobs, create_offer, stats
--     Search               the distance, the candidates, the search, create_next_offer_for_job
--     Offers               offer status, expiry, responses, job_dispatch_state
--     Queries              the event queries
--     Recovery             to_snapshot, recover, create_snapshot; Life has the runs of an engine
--                          over a storage, with crashes, and Logged the lists of
--                          commands that the calls of the service amount to
--   Dispatch      rust/crates/spatiad-dispatch/src/lib.rs, and the runs of the service
--   Ws            rust/crates/spatiad-ws/src/lib.rs
--   Api           rust/crates/spatiad-api/src/lib.rs, and Validation of validation.rs:
--     State, Http          the shared state with its locks, the requests and responses
--     RateLimiter, Limits  the sliding windows, and the check of a request
--     Authorization        the token checks and the key of a client
--     Handlers, Events     the HTTP handlers
--     RequestContext       the middleware for request ids
--     Responses, Kinds     the labels of job states and events, and the parameter `kinds`
--     Sessions, Messages   the channels of the drivers, and the messages of a driver
--     Connections          the task that serves a driver, from its request to connect
--     Webhook, Background  the delivery of a match, and the two background tasks
--   Bin           rust/crates/spatiad-bin/src/main.rs
--   Tests         concrete parameters, and the theorems at concrete inputs
-- The modules below these hold the proofs and are named for what they prove.
--
-- The state. An engine is a record with the fields of the source, and with `world`: the readings of
-- the clock and the ids still to come, of which each call takes those that the source reads, in its
-- order. A method that changes the engine returns the new one. The server holds the service behind
-- one lock, so a run of it is a sequence of calls.
--
-- The tasks. A handler, a session or a background task is a function of the shared state. It may be
-- interrupted wherever it waits for a lock: `acquire` first applies what `Tasks` says that the other
-- tasks do there, and `locks` counts the locks, so that they may do something else each time. A
-- channel is a number with the queue of its messages; a sender lives while the sessions hold it. A
-- session is run on the list of its wakes: ticks, messages of its channel and of its socket.
--
-- The databases. A table with an integer key is the list of its rows by ascending key, a statement is
-- the function that its SQL text describes, and a statement may fail. The keys are numbers of 64
-- bits with the signed order of the column. Columns that are never read (written_at, created_at)
-- are left out. Opening a database runs its batch statement by statement: SQLite keeps what ran before
-- a failure, PostgreSQL runs the batch as one transaction. A connection finds each table or no table.
--
-- The durability. `Contract` has laws of the log and of the latest snapshot in the valid states of a
-- backend, for numbers below the limit of the backend, and says what may be left by a call that
-- fails. A valid state of a database has rows that can be read and decoded, and reads that do not
-- fail; statements that write may fail at any time. The limit of a database is 2^63, since its
-- columns are signed.
--
-- The parameters. `F64` is the type `f64` with the operations that the source calls, `H3` the crate
-- h3o, `Codec` the JSON texts of event kinds, `StorageBackend` a backend, `Unicode` the tables of
-- `char`, `Rfc3339` the texts of instants, `MessageCodec` the JSON texts of the messages of a driver,
-- `WebhookPort` what the webhook calls, `Bincode`, `UuidText` and `Timestamptz` what the databases
-- keep of a value, and `Tasks` the other tasks. Laws of them are hypotheses where a theorem needs
-- them: `RoundTrips` says that bincode reads back what it wrote, `IsPlain` that the crate http reads
-- back a header value that it read, `RadiusLaws` is what the search needs of floats, and
-- `IsTotalOrder` that `f64::total_cmp` is a total order. `HeaderValues` is what the crate http takes
-- for a header value.
--
-- Numbers. Ids are the numbers of their 128 bits, instants are nanoseconds, texts are lists of code
-- points. The counters of events and of the log wrap around at 2^64. Deadlines are not bounded by
-- the range of chrono. A `HashMap` is a list with the order of iteration that the list has.
--
-- Fuel. Only the search over the radius has fuel, 1024 rounds: the radius grows by 2 km in each
-- round, and the validators admit at most 1000 km.
--
-- Not modelled: the effect of the pragmas of SQLite; limits of an event query from 2^63 on, and a
-- lifetime of drivers out of the range of chrono; the table of routes and the JSON extractors of
-- spatiad-api, which axum interprets; logging, the listener and the signals of spatiad-bin; the clients
-- in other languages.
pub mod Base
pub mod Platform
pub mod Types
pub mod Storage
pub mod SpatialIndex
pub mod Core
pub mod Dispatch
pub mod Ws
pub mod Bin
pub mod Api
pub mod Tests
