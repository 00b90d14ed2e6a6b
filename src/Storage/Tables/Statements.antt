-- ===== src/Storage/Tables/Statements.antt =====
-- rust/crates/spatiad-storage/src/{sqlite,pg}.rs: the statements on the log and the snapshots, which the two
-- backends share.
use spatiad.Base.{ℕ, [], ◌∷◌, ◌++◌, any, Result, ok, err, nat_eq, if◌then◌else◌}
use spatiad.Base.Text.{Text}
use spatiad.Storage.{StorageError}
use spatiad.Storage.Tables.{
  Blob, EventRow, Database, is_key, executed, failing_as, inserted, insert_row, replace_row,
  rows_after, latest_two,
}

module _ {T : Type 0} where
  unfoldable pub append_blob :
      Database T → ℕ → Result Blob Text → Database T × Result (Unit {0}) StorageError
  append_blob s seq (err error) = (s, err (StorageError.wal_append error))
  append_blob s seq (ok blob) =
      failing_as StorageError.wal_append (executed s λ s'. inserted s' (insert_row seq blob s'.wal))

  -- The second statement runs where the first succeeded.
  pruned : Database T × Result (Unit {0}) Text → Database T × Result (Unit {0}) Text
  pruned (s, err error) = (s, err error)
  pruned (s, ok _) = executed s λ s'. (record s' { snapshots = latest_two s'.snapshots }, ok tt)

  unfoldable pub write_blob :
      Database T → ℕ → Result Blob Text → Database T × Result (Unit {0}) StorageError
  unfolding pruned
  write_blob s seq (err error) = (s, err (StorageError.snapshot_write error))
  write_blob s seq (ok blob) = failing_as StorageError.snapshot_write (
      pruned
        (executed s λ s'. (record s' { snapshots = replace_row seq blob s'.snapshots }, ok tt)))

  unfoldable pub delete_up_to : Database T → ℕ → Database T × Result (Unit {0}) StorageError
  delete_up_to s up_to_seq =
      failing_as StorageError.wal_append
        (executed s λ s'. (record s' { wal = rows_after up_to_seq s'.wal }, ok tt))

  unfoldable pub insert_event :
      Database T → EventRow T → Database T × Result (Unit {0}) StorageError
  insert_event s row = failing_as StorageError.event_store (
      executed s λ s'.
        if any (is_key row.job_id row.sequence) s'.job_events
        then (s', err s'.duplicate)
        else (record s' { job_events = s'.job_events ++ (row ∷ []) }, ok tt))
