-- ===== src/Storage/Tables/Migration.antt =====
-- rust/crates/spatiad-storage/src/{sqlite,pg}.rs: what opening a database keeps of its rows.
use spatiad.Base.{
  suc, ◌≡◌, refl, ◌∙◌, ap, Option, none, some, Option-cases, inl, inr, List, [], ◌∷◌, nat_eq,
}
use spatiad.Storage.Tables.{Bincode}
use spatiad.Storage.Tables.Logged.{logged}
use spatiad.Storage.Tables.Snapshots.{held}
use spatiad.Storage.Tables.Sound.{IsSound, log_of, saved_of}
use spatiad.Storage.Tables.Opening.{
  Connection, create_table, rows_in, run_batch, migration, database_of,
}

rows_in-create_table : {A : Type 0} (o : Option (List A)) → rows_in (create_table o) ≡ rows_in o
unfolding create_table
rows_in-create_table none = refl
rows_in-create_table (some rows) = refl

module _ {T : Type 0} where
  -- The same rows, which can be read alike.
  abbrev pub SameRows : Connection T → Connection T → Type 0
  SameRows c c' =
      (rows_in c'.wal ≡ rows_in c.wal)
      × (rows_in c'.snapshots ≡ rows_in c.snapshots)
      × (rows_in c'.job_events ≡ rows_in c.job_events)
      × (c'.prepare_error ≡ c.prepare_error)
      × (c'.query_error ≡ c.query_error)

  pub SameRows-trans : (c c' c'' : Connection T) → SameRows c c' → SameRows c' c'' → SameRows c c''
  SameRows-trans c c' c'' p q = (q.0 ∙ p.0, q.1 ∙ p.1, q.2 ∙ p.2, q.3 ∙ p.3, q.4 ∙ p.4)

  -- Statements that lose no row.
  abbrev pub KeepRows : List (Connection T → Connection T) → Type 0
  KeepRows [] = Unit {0}
  KeepRows (statement ∷ rest) = ((c : Connection T) → SameRows c (statement c)) × KeepRows rest

  pub same_rows : (c : Connection T) → SameRows c c
  same_rows c = (refl, refl, refl, refl, refl)

  pub run_batch-SameRows :
      (statements : List (Connection T → Connection T)) (c : Connection T)
      → KeepRows statements
      → SameRows c (run_batch statements c).0
  unfolding run_batch
  run_batch-SameRows [] c k = same_rows c
  run_batch-SameRows (statement ∷ rest) c k =
      let c' : Connection T = record c { write_errors = λ n. c.write_errors (suc n) } in
      elim (Option-cases (c.write_errors 0)) [
        | inr (e, p) ↦ rw (p, run_batch) (same_rows c)
        | inl p ↦
            rw (p, run_batch)
              (SameRows-trans c (statement c') (run_batch rest (statement c')).0 (k.0 c')
                (run_batch-SameRows rest (statement c') k.1))
      ]

migration-KeepRows : (T : Type 0) → KeepRows (migration {T = T})
unfolding migration
migration-KeepRows T = (
  same_rows,
  (
    (λ c. (rows_in-create_table c.wal, refl, refl, refl, refl)),
    (
      (λ c. (refl, rows_in-create_table c.snapshots, refl, refl, refl)),
      (
        (λ c. (refl, refl, rows_in-create_table c.job_events, refl, refl)),
        (same_rows, (same_rows, tt)),
      ),
    ),
  ),
)

pub migration-SameRows : {T : Type 0} (c : Connection T) → SameRows c (run_batch migration c).0
migration-SameRows {T = T} c = run_batch-SameRows migration c (migration-KeepRows T)

module _ {F T : Type 0} (b : Bincode F) where
  -- A connection to rows that are sound is a sound database, with the same log and snapshot.
  pub SameRows-IsSound :
      (c c' : Connection T)
      → SameRows c c'
      → IsSound b (database_of c)
      → IsSound b (database_of c')
        × (log_of b (database_of c') ≡ log_of b (database_of c))
        × (saved_of b (database_of c') ≡ saved_of b (database_of c))
  unfolding database_of
  SameRows-IsSound c c' p v = (
    record {
      prepared = p.3 ∙ v.prepared;
      queried = p.4 ∙ v.queried;
      entries = rw p.0 v.entries;
      snapshots = rw p.1 v.snapshots;
      ascending = rw p.1 v.ascending;
    },
    ap (logged b) p.0,
    ap (held b) p.1,
  )
