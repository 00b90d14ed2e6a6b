-- ===== src/Storage/Tables/Sound.antt =====
-- rust/crates/spatiad-storage/src/{sqlite,pg}.rs: what the statements keep of the log and the snapshots.
use spatiad.Base.{
  ℕ, ◌^◌, ◌<◌, ◌≤◌, ◌≡◌, refl, ◌∙◌, true, Option, none, some, Option-cases, Bool-cases, any,
  Result-cases, inl, inr, ◌⊎◌, List, [], ◌∷◌, ◌++◌, nat_eq, Result, ok, err, arith,
}
use spatiad.Base.Text.{Text}
use spatiad.Storage.{Command, EngineSnapshot, StorageError}
use spatiad.Storage.Contract.{after, Below, number}
use spatiad.Storage.Tables.{
  Blob, Row, EventRow, is_key, Bincode, Database, after_statement, run_statement, failing_as,
  inserted, replace_row, rows_after, latest_two, latest,
}
use spatiad.Storage.Tables.Order.{
  is_ascending, insert_row-append, latest-latest_two, latest-replace_row,
}
use spatiad.Storage.Tables.Statements.{append_blob, write_blob, delete_up_to, insert_event}
use spatiad.Storage.Tables.Logged.{IsLog, logged, IsLog-append, all_below-Below, rows_after-IsLog}
use spatiad.Storage.Tables.Snapshots.{
  IsSnapshots, held, drop-IsSnapshots, replace_row-IsSnapshots, held-latest, none_above-held,
  latest_two-is_ascending, replace_row-is_ascending,
}

-- What bincode writes it reads back.
pub record RoundTrips {F : Type 0} (b : Bincode F) : Type 0 where
  pub command :
      (cmd : Command F) (blob : Blob)
      → b.serialize_command cmd ≡ ok blob
      → b.deserialize_command blob ≡ ok cmd
  pub snapshot :
      (x : EngineSnapshot F) (blob : Blob)
      → b.serialize_snapshot x ≡ ok blob
      → b.deserialize_snapshot blob ≡ ok x

module _ {F T : Type 0} (b : Bincode F) where
  -- A database whose rows can be read, with a log and snapshots in them.
  pub record IsSound (s : Database T) : Type 0 where
    pub prepared : s.prepare_error ≡ none
    pub queried : s.query_error ≡ none
    pub entries : IsLog b s.wal
    pub snapshots : IsSnapshots b s.snapshots
    pub ascending : is_ascending s.snapshots ≡ true

  -- The log and the latest snapshot.
  abbrev pub log_of : Database T → List (ℕ × Command F)
  log_of s = logged b s.wal

  abbrev pub saved_of : Database T → Option (EngineSnapshot F)
  saved_of s = held b s.snapshots

  -- Other tables for those of a database.
  tables :
      (s : Database T) (wal snapshots : List Row) (write_errors : ℕ → Option Text)
      → IsSound s
      → IsLog b wal
      → IsSnapshots b snapshots
      → is_ascending snapshots ≡ true
      → IsSound (record s { wal = wal; snapshots = snapshots; write_errors = write_errors })
  tables s wal snapshots write_errors v entries pictures up = record {
    prepared = v.prepared;
    queried = v.queried;
    entries = entries;
    snapshots = pictures;
    ascending = up;
  }

  pub run-IsSound : (s : Database T) → IsSound s → IsSound (after_statement s)
  run-IsSound s v = tables s s.wal s.snapshots _ v v.entries v.snapshots v.ascending

  ran :
      (w : Option Text) (s : Database T)
      (statement : Database T → Database T × Result (Unit {0}) Text) (kind : Text → StorageError)
      → (failing_as kind (run_statement w s statement)).1 ≡ ok tt
      → w ≡ none
  ran none s statement kind p = refl
  ran (some e) s statement kind p = ground (arith, p)

  appended :
      (s : Database T) (n : ℕ) (r : Result Blob Text)
      → (append_blob s n r).1 ≡ ok tt
      → (blob : Blob) × (r ≡ ok blob) × (s.write_errors 0 ≡ none)
  unfolding append_blob
  appended s n (err e) p = ground (arith, p)
  appended s n (ok blob) p = (blob, refl, ran (s.write_errors 0) _ _ _ p)

  module _ (codec : RoundTrips b) where
    pub append_blob-IsSound :
        (s : Database T) (m n : ℕ) (cmd : Command F)
        → IsSound s
        → Below m (log_of s)
        → m < n
        → n < 2 ^ 63
        → (append_blob s n (b.serialize_command cmd)).1 ≡ ok tt
        → let s' = (append_blob s n (b.serialize_command cmd)).0 in
          IsSound s' × (log_of s' ≡ log_of s ++ ((n, cmd) ∷ [])) × (saved_of s' ≡ saved_of s)
    unfolding append_blob inserted
    append_blob-IsSound s m n cmd v below up room stored =
        let (blob, p, q) = appended s n (b.serialize_command cmd) stored in
        let more = IsLog-append b n blob cmd s.wal room (codec.command cmd blob p) v.entries in
        let newest = all_below-Below b m n s.wal up room v.entries below in
        rw p (
          rw q (
            rw (insert_row-append n blob s.wal newest) (
              tables s (s.wal ++ ((n, blob) ∷ [])) s.snapshots _ v more.0 v.snapshots v.ascending,
              more.1,
              refl,
            )))

    replaced :
        (s : Database T) (x : EngineSnapshot F) (blob : Blob)
        → IsSound s
        → number (saved_of s) ≤ x.wal_sequence
        → x.wal_sequence < 2 ^ 63
        → b.deserialize_snapshot blob ≡ ok x
        → let rows = replace_row x.wal_sequence blob s.snapshots in
          IsSnapshots b rows × (is_ascending rows ≡ true) × (latest rows ≡ some blob)
    replaced s x blob v old room p = (
      replace_row-IsSnapshots b x blob s.snapshots room p v.snapshots,
      replace_row-is_ascending b x.wal_sequence blob s.snapshots room v.snapshots v.ascending,
      latest-replace_row x.wal_sequence blob s.snapshots v.ascending
          (none_above-held b x.wal_sequence s.snapshots room v.ascending v.snapshots old),
    )

    -- Whatever fails, the log is as it was, and the latest snapshot is as it was or is the new one; it
    -- is as it was only if the call fails.
    pub write_blob-IsSound :
        (s : Database T) (x : EngineSnapshot F)
        → IsSound s
        → number (saved_of s) ≤ x.wal_sequence
        → x.wal_sequence < 2 ^ 63
        → let (s', r) = write_blob s x.wal_sequence (b.serialize_snapshot x) in
          IsSound s'
          × (log_of s' ≡ log_of s)
          × (((saved_of s' ≡ saved_of s) × ((e : StorageError) × (r ≡ err e)))
              ⊎ (saved_of s' ≡ some x))
    unfolding write_blob
    write_blob-IsSound s x v old room = elim (Result-cases (b.serialize_snapshot x)) [
      | inr (e, p) ↦ rw p (v, refl, inl (refl, (_, refl)))
      | inl (blob, p) ↦ elim (Option-cases (s.write_errors 0)) [
        | inr (e, q) ↦ rw p (rw q (run-IsSound s v, refl, inl (refl, (_, refl))))
        | inl q ↦
            let codec_x = codec.snapshot x blob p in
            let new = replaced s x blob v old room codec_x in
            let rows = replace_row x.wal_sequence blob s.snapshots in
            elim (Option-cases (s.write_errors 1)) [
              | inr (e, t) ↦ rw p (
                  rw q (
                    rw t (
                      tables s s.wal rows _ v v.entries new.0 new.1,
                      refl,
                      inr (held-latest b x blob rows codec_x new.2),
                    )))
              | inl t ↦ rw p (
                  rw q (
                    rw t (
                      tables s s.wal (latest_two rows) _ v v.entries
                          (drop-IsSnapshots b _ rows new.0) (latest_two-is_ascending rows new.1),
                      refl,
                      inr (
                          held-latest b x blob (latest_two rows) codec_x
                            (latest-latest_two rows ∙ new.2)),
                    )))
            ]
      ]
    ]

  -- The log keeps all its entries or those above the number; it keeps all only if the call fails.
  pub delete_up_to-IsSound :
      (s : Database T) (n : ℕ)
      → IsSound s
      → n < 2 ^ 63
      → let (s', r) = delete_up_to s n in
        IsSound s'
        × (((log_of s' ≡ log_of s) × ((e : StorageError) × (r ≡ err e)))
            ⊎ (log_of s' ≡ after n (log_of s)))
        × (saved_of s' ≡ saved_of s)
  unfolding delete_up_to
  delete_up_to-IsSound s n v room = elim (Option-cases (s.write_errors 0)) [
    | inr (e, q) ↦ rw q (run-IsSound s v, inl (refl, (_, refl)), refl)
    | inl q ↦
        let rest = rows_after-IsLog b n s.wal room v.entries in
        rw q (
          tables s (rows_after n s.wal) s.snapshots _ v rest.0 v.snapshots v.ascending,
          inr rest.1,
          refl,
        )
  ]

  insert-IsSound :
      (s : Database T) (rows : List (EventRow T))
      → IsSound s
      → IsSound (record (after_statement s) { job_events = rows })
  insert-IsSound s rows v = record {
    prepared = v.prepared;
    queried = v.queried;
    entries = v.entries;
    snapshots = v.snapshots;
    ascending = v.ascending;
  }

  pub insert_event-IsSound :
      (s : Database T) (row : EventRow T)
      → IsSound s
      → let s' = (insert_event s row).0 in
        IsSound s' × (log_of s' ≡ log_of s) × (saved_of s' ≡ saved_of s)
  unfolding insert_event
  insert_event-IsSound s row v = elim (Option-cases (s.write_errors 0)) [
    | inr (e, q) ↦ rw q (run-IsSound s v, refl, refl)
    | inl q ↦ elim (Bool-cases (any (is_key row.job_id row.sequence) s.job_events)) [
      | inl there ↦ rw q (rw there (run-IsSound s v, refl, refl))
      | inr new ↦ rw q (rw new (insert-IsSound s _ v, refl, refl))
    ]
  ]

-- Of two things that a call may have done, the one that goes with no error.
pub succeeded :
    {A B : Type 0} (r : Result (Unit {0}) StorageError)
    → ((A × ((e : StorageError) × (r ≡ err e))) ⊎ B)
    → r ≡ ok tt
    → B
succeeded r (inl (_, (e, q))) p = ground (arith, p, q)
succeeded r (inr done) p = done

-- The same two things, the error forgotten.
pub either : {A B C : Type 0} → ((A × C) ⊎ B) → A ⊎ B
either (inl (a, _)) = inl a
either (inr done) = inr done
