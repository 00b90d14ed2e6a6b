-- ===== src/Storage/Tables.antt =====
-- rust/crates/spatiad-storage/src/{sqlite,pg}.rs: the tables of the two databases and the statements on
-- them. A table with an integer key is the list of its rows by ascending key.
pub mod Order
pub mod Newest
pub mod Inserted
pub mod Statements
pub mod Logged
pub mod Snapshots
pub mod Sound
pub mod Opening
pub mod Migration
use spatiad.Base.{
  ℕ, suc, ◌+◌, ◌-◌, ◌%◌, ◌^◌, Bool, true, false, not, ◌&&◌, ◌||◌, Option, none, some, List, [], ◌∷◌,
  map, filter, any, length, drop, take, ltb, nat_beq, nat_eq, ◌==◌, Result, ok, err, ◌>>=◌, map_err,
  if◌then◌else◌,
}
use mathlib.Core.Option
use spatiad.Base.Text.{Text, text_eq}
use spatiad.Storage.{Command, EngineSnapshot, StorageError}

-- `n as i64` keeps the 64 bits of `n`; this is `<` of the signed numbers that two such bit patterns
-- stand for, and a pattern read back `as u64` is the number again.
unfoldable pub signed_lt : ℕ → ℕ → Bool
signed_lt m n = ltb ((m + 2 ^ 63) % 2 ^ 64) ((n + 2 ^ 63) % 2 ^ 64)

abbrev pub Blob : Type 0
Blob = List ℕ

-- A row with an integer key.
abbrev pub Row : Type 0
Row = ℕ × Blob

-- A row of the events: the job, the number, the instant as the column keeps it, and the kind.
pub record EventRow (T : Type 0) : Type 0 where
  pub job_id : Text
  pub sequence : ℕ
  pub occurred_at : T
  pub kind_json : Text

-- The crate bincode at the two types, with the texts of its errors.
pub record Bincode (F : Type 0) : Type 0 where
  pub serialize_command : Command F → Result Blob Text
  pub deserialize_command : Blob → Result (Command F) Text
  pub serialize_snapshot : EngineSnapshot F → Result Blob Text
  pub deserialize_snapshot : Blob → Result (EngineSnapshot F) Text

-- `INSERT INTO t (seq, ..)`: none if the key is there.
unfoldable pub insert_row : ℕ → Blob → List Row → Option (List Row)
insert_row k blob [] = some ((k, blob) ∷ [])
insert_row k blob (row ∷ rows) =
    let rest = insert_row k blob rows in
    if nat_beq k row.0
    then none
    else if signed_lt k row.0
    then some ((k, blob) ∷ row ∷ rows)
    else Option.map (λ rs. row ∷ rs) rest

-- `INSERT OR REPLACE` and `ON CONFLICT (seq) DO UPDATE`.
unfoldable pub replace_row : ℕ → Blob → List Row → List Row
replace_row k blob [] = (k, blob) ∷ []
replace_row k blob (row ∷ rows) =
    let rest = replace_row k blob rows in
    if nat_beq k row.0
    then (k, blob) ∷ rows
    else if signed_lt k row.0
    then (k, blob) ∷ row ∷ rows
    else row ∷ rest

-- `WHERE seq > n`, which is also what `DELETE .. WHERE seq <= n` leaves.
abbrev pub rows_after : ℕ → List Row → List Row
rows_after n rows = filter (λ row. signed_lt n row.0) rows

-- `WHERE seq NOT IN (SELECT seq .. ORDER BY seq DESC LIMIT 2)` deleted.
abbrev pub latest_two : List Row → List Row
latest_two rows = drop (length rows - 2) rows

-- `ORDER BY seq DESC LIMIT 1`.
abbrev pub latest : List Row → Option Blob
latest [] = none
latest (row ∷ []) = some row.1
latest (row ∷ next ∷ rows) = latest (next ∷ rows)

-- The entries of the log from their rows, up to the first blob that is not a command.
unfoldable pub entries :
    {F : Type 0} ⦃b : Bincode F⦄ → List Row → Result (List (ℕ × Command F)) Text
entries [] = ok []
entries ⦃b⦄ (row ∷ rows) = do
  cmd ← b.deserialize_command row.1
  rest ← entries rows
  ok ((row.0, cmd) ∷ rest)

module _ {T : Type 0} where
  -- The key of the events is the job and the number.
  abbrev pub is_key : Text → ℕ → EventRow T → Bool
  is_key job_id sequence row = row.job_id == job_id && nat_beq row.sequence sequence

  -- `occurred_at DESC, sequence DESC` for `<` on instants: the first row does not come after the
  -- second.
  abbrev pub is_newer : (T → T → Bool) → EventRow T → EventRow T → Bool
  is_newer lt x y =
      lt y.occurred_at x.occurred_at
      || (not (lt x.occurred_at y.occurred_at) && not (signed_lt x.sequence y.sequence))

  unfoldable pub insert_newest : (T → T → Bool) → EventRow T → List (EventRow T) → List (EventRow T)
  insert_newest lt x [] = x ∷ []
  insert_newest lt x (y ∷ ys) =
      let rest = insert_newest lt x ys in if is_newer lt x y then x ∷ y ∷ ys else y ∷ rest

  unfoldable pub newest_first : (T → T → Bool) → List (EventRow T) → List (EventRow T)
  newest_first lt [] = []
  newest_first lt (x ∷ xs) = insert_newest lt x (newest_first lt xs)

  -- `occurred_at < t OR (occurred_at = t AND sequence < n)`.
  abbrev pub is_before_row : (T → T → Bool) → T → ℕ → EventRow T → Bool
  is_before_row lt t n row =
      lt row.occurred_at t
      || (not (lt row.occurred_at t) && not (lt t row.occurred_at) && signed_lt row.sequence n)

  -- The rows of a job that pass a test, newest first, up to a number of them.
  unfoldable pub select_events :
      (T → T → Bool) → Text → (EventRow T → Bool) → ℕ → List (EventRow T) → List (EventRow T)
  select_events lt job_id p max_items rows =
      take max_items (newest_first lt (filter (λ row. row.job_id == job_id && p row) rows))

-- `Uuid::to_string`, of the crate uuid.
pub record UuidText : Type 0 where
  pub uuid_text : ℕ → Text

-- The three tables, the errors of the statements that write, the errors of preparing a statement
-- and of running one that reads, the text of the error for a key that is there, and what the
-- clock shows to a read.
pub record Database (T : Type 0) : Type 0 where
  pub wal : List Row
  pub snapshots : List Row
  pub job_events : List (EventRow T)
  pub write_errors : ℕ → Option Text
  pub prepare_error : Option Text
  pub query_error : Option Text
  pub duplicate : Text
  pub now : ℕ

abbrev pub rows_or : {A : Type 0} → Option Text → Option Text → List A → Result (List A) Text
rows_or (some error) _ rows = err error
rows_or none (some error) rows = err error
rows_or none none rows = ok rows

module _ {T : Type 0} where
  -- One statement that writes is run.
  abbrev pub after_statement : Database T → Database T
  after_statement s = record s { write_errors = λ n. s.write_errors (suc n) }

  abbrev pub run_statement :
      Option Text
      → Database T
      → (Database T → Database T × Result (Unit {0}) Text)
      → Database T × Result (Unit {0}) Text
  run_statement none s statement = statement s
  run_statement (some error) s statement = (s, err error)

  -- A statement that writes fails and changes nothing, or changes the tables.
  abbrev pub executed :
      Database T
      → (Database T → Database T × Result (Unit {0}) Text)
      → Database T × Result (Unit {0}) Text
  executed s statement = run_statement (s.write_errors 0) (after_statement s) statement

  -- `.map_err(|e| kind(e.to_string()))` on what a statement leaves.
  abbrev pub failing_as :
      (Text → StorageError)
      → Database T × Result (Unit {0}) Text
      → Database T × Result (Unit {0}) StorageError
  failing_as kind (s, r) = (s, map_err kind r)

  -- What a statement that reads finds.
  abbrev pub rows_of : {A : Type 0} → Database T → List A → Result (List A) Text
  rows_of s rows = rows_or s.prepare_error s.query_error rows

  -- The log after an insertion.
  unfoldable pub inserted : Database T → Option (List Row) → Database T × Result (Unit {0}) Text
  inserted s none = (s, err s.duplicate)
  inserted s (some rows) = (record s { wal = rows }, ok tt)
