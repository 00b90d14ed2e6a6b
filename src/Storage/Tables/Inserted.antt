-- ===== src/Storage/Tables/Inserted.antt =====
-- rust/crates/spatiad-storage/src/{sqlite,pg}.rs: the table of the events after an insertion.
use spatiad.Base.{◌≡◌, refl, [], ◌∷◌, ◌++◌, any, ok, arith, Bool-cases, Option-cases, inl, inr}
use spatiad.Storage.Tables.{EventRow, Database, is_key, after_statement}
use spatiad.Storage.Tables.Statements.{insert_event}

module _ {T : Type 0} where
  -- The database with one more event, after one statement.
  abbrev pub with_event : Database T → EventRow T → Database T
  with_event s row = record (after_statement s) { job_events = s.job_events ++ (row ∷ []) }

  pub insert_event-with_event :
      (s : Database T) (row : EventRow T)
      → (insert_event s row).1 ≡ ok tt
      → insert_event s row ≡ (with_event s row, ok tt)
  unfolding insert_event
  insert_event-with_event s row p = elim (Option-cases (s.write_errors 0)) [
    | inl q ↦ elim (Bool-cases (any (is_key row.job_id row.sequence) s.job_events)) [
      | inl t ↦ ground (arith, p, q, t)
      | inr t ↦ rw (q, insert_event) (rw t refl)
    ]
    | inr (error, q) ↦ ground (arith, p, q)
  ]
