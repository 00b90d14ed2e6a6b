-- ===== src/Storage/Tables/Opening.antt =====
-- rust/crates/spatiad-storage/src/{sqlite,pg}.rs: the tables of a connection, and their creation.
use spatiad.Base.{
  ℕ, suc, Option, none, some, List, [], ◌∷◌, any, nat_beq, nat_eq, Result, ok, err, if◌then◌else◌,
}
use spatiad.Base.Text.{Text}
use spatiad.Storage.Tables.{Row, EventRow, Database}

-- What a connection finds in the database: none for a table that is not there. The other fields are
-- those of a database.
pub record Connection (T : Type 0) : Type 0 where
  pub schema_version : Option (List ℕ)
  pub wal : Option (List Row)
  pub snapshots : Option (List Row)
  pub job_events : Option (List (EventRow T))
  pub write_errors : ℕ → Option Text
  pub prepare_error : Option Text
  pub query_error : Option Text
  pub duplicate : Text
  pub now : ℕ

-- `CREATE TABLE IF NOT EXISTS`.
unfoldable pub create_table : {A : Type 0} → Option (List A) → Option (List A)
create_table none = some []
create_table (some rows) = some rows

-- The rows of a table, none if it is not there.
abbrev pub rows_in : {A : Type 0} → Option (List A) → List A
rows_in none = []
rows_in (some rows) = rows

-- `INSERT INTO schema_version (version) VALUES (1)`, ignored if the version is there.
insert_version : List ℕ → List ℕ
insert_version versions = if any (nat_beq 1) versions then versions else 1 ∷ versions

module _ {T : Type 0} where
  -- The statements of a batch, up to the first that fails.
  unfoldable pub run_batch :
      List (Connection T → Connection T) → Connection T → Connection T × Result (Unit {0}) Text
  run_batch [] c = (c, ok tt)
  run_batch (statement ∷ rest) c =
      let c' = record c { write_errors = λ n. c.write_errors (suc n) } in
      elim (c.write_errors 0) [
        | some error ↦ (c', err error)
        | none ↦ run_batch rest (statement c')
      ]

  -- The statements of `migrate`. The index changes no table.
  unfoldable pub migration : List (Connection T → Connection T)
  unfolding insert_version
  migration =
      (λ c. record c { schema_version = create_table c.schema_version })
      ∷ (λ c. record c { wal = create_table c.wal })
      ∷ (λ c. record c { snapshots = create_table c.snapshots })
      ∷ (λ c. record c { job_events = create_table c.job_events })
      ∷ (λ c. c)
      ∷ (λ c. record c { schema_version = some (insert_version (rows_in c.schema_version)) })
      ∷ []

  -- The database of a connection.
  unfoldable pub database_of : Connection T → Database T
  database_of c = record {
    wal = rows_in c.wal;
    snapshots = rows_in c.snapshots;
    job_events = rows_in c.job_events;
    write_errors = c.write_errors;
    prepare_error = c.prepare_error;
    query_error = c.query_error;
    duplicate = c.duplicate;
    now = c.now;
  }

  -- The connection to a database that is there.
  unfoldable pub connection_of : List ℕ → Database T → Connection T
  connection_of versions s = record {
    schema_version = some versions;
    wal = some s.wal;
    snapshots = some s.snapshots;
    job_events = some s.job_events;
    write_errors = s.write_errors;
    prepare_error = s.prepare_error;
    query_error = s.query_error;
    duplicate = s.duplicate;
    now = s.now;
  }
