-- ===== src/Storage/Sqlite/Laws.antt =====
-- rust/crates/spatiad-storage/src/sqlite.rs: what is read after what was written.
use spatiad.Base.{
  ℕ, ◌≡◌, refl, sym, ◌∙◌, ap, true, false, none, some, List, [], ◌∷◌, ◌++◌, Result, ok, err, ◌>>=◌,
  map_err, arith,
}
use spatiad.Base.Text.{Text}
use spatiad.Storage.{Command, EngineSnapshot, StorageError}
use spatiad.Storage.Tables.{
  Blob, Bincode, signed_lt, replace_row, rows_after, latest_two, latest, entries, after_statement,
  inserted, rows_of,
}
use spatiad.Storage.Tables.Order.{
  all_below, insert_row-append, is_ascending, none_above, rows_after-append, rows_after-rows_after,
  latest-latest_two, latest-replace_row, entries-append,
}
use spatiad.Storage.Tables.Statements.{append_blob, write_blob, delete_up_to}
use spatiad.Storage.Sqlite.{
  SqliteBackend, append_wal, write_snapshot, read_snapshot, prepared_snapshot, load_snapshot,
  load_wal_after, compact_wal,
}

-- The statement that writes next succeeds, and so do those that read.
abbrev pub IsWritable : SqliteBackend → Type 0
IsWritable s = s.write_errors 0 ≡ none

abbrev pub IsReadable : SqliteBackend → Type 0
IsReadable s = (s.prepare_error ≡ none) × (s.query_error ≡ none)

rows_of-IsReadable :
    {A : Type 0} (s : SqliteBackend) (rows : List A) → IsReadable s → rows_of s rows ≡ ok rows
rows_of-IsReadable s rows x = rw (x.0, x.1) refl

append_blob_ok :
    (s : SqliteBackend) (n : ℕ) (blob : Blob)
    → IsWritable s
    → all_below n s.wal ≡ true
    → append_blob s n (ok blob)
      ≡ (record (after_statement s) { wal = s.wal ++ ((n, blob) ∷ []) }, ok tt)
unfolding append_blob inserted
append_blob_ok s n blob up below = rw up (rw (insert_row-append n blob s.wal below) refl)

write_blob_ok :
    (s : SqliteBackend) (n : ℕ) (blob : Blob)
    → IsWritable s
    → IsWritable (after_statement s)
    → write_blob s n (ok blob) ≡ (
      record (after_statement (after_statement s)) {
        snapshots = latest_two (replace_row n blob s.snapshots);
      },
      ok tt,
    )
unfolding write_blob
write_blob_ok s n blob up next = rw up (rw next refl)

module _ {F : Type 0} ⦃b : Bincode F⦄ where
  loaded :
      (s : SqliteBackend) (n : ℕ)
      → IsReadable s
      → load_wal_after {F = F} s n ≡ map_err StorageError.wal_load (entries (rows_after n s.wal))
  unfolding load_wal_after
  loaded s n x = rw (rows_of-IsReadable s (rows_after n s.wal) x) refl

  more_entries :
      (r : Result (List (ℕ × Command F)) Text) (es x : List (ℕ × Command F))
      → map_err StorageError.wal_load r ≡ ok es
      → map_err StorageError.wal_load (r >>= (λ found. ok (found ++ x))) ≡ ok (es ++ x)
  more_entries (ok found) es x p = ground (arith, p)
  more_entries (err e) es x p = ground (arith, p)

  -- A command that is appended under a number above those of the log is the last entry of what is
  -- read from any number below on, and the entries before it are those that were read before; the
  -- statements have to succeed, and the blob of the command has to be the command's.
  pub append_wal-load_wal_after :
      (s : SqliteBackend) (k n : ℕ) (cmd : Command F) (blob : Blob) (es : List (ℕ × Command F))
      → IsWritable s
      → IsReadable s
      → b.serialize_command cmd ≡ ok blob
      → b.deserialize_command blob ≡ ok cmd
      → all_below n s.wal ≡ true
      → signed_lt k n ≡ true
      → load_wal_after s k ≡ ok es
      → ((append_wal s n cmd).1 ≡ ok tt)
        × (load_wal_after (append_wal s n cmd).0 k ≡ ok (es ++ ((n, cmd) ∷ [])))
  unfolding append_wal
  append_wal-load_wal_after s k n cmd blob es up reads writes codec below above before =
      let s' : SqliteBackend = record (after_statement s) { wal = s.wal ++ ((n, blob) ∷ []) } in
      let appended : append_wal s n cmd ≡ (s', ok tt) =
        ap (append_blob s n) writes ∙ append_blob_ok s n blob up below in
      rw appended (
        refl,
        loaded s' k reads
            ∙ ap (λ rows. map_err StorageError.wal_load (entries rows))
                (rows_after-append k n blob s.wal above)
            ∙ ap (map_err StorageError.wal_load)
                (entries-append n cmd blob (rows_after k s.wal) codec)
            ∙ more_entries (entries (rows_after k s.wal)) es ((n, cmd) ∷ [])
                (sym (loaded s k reads) ∙ before),
      )

  -- Compacting the log up to a number loses nothing of what is read from that number on.
  pub compact_wal-load_wal_after :
      (s : SqliteBackend) (k n : ℕ)
      → IsWritable s
      → IsReadable s
      → signed_lt k n ≡ false
      → load_wal_after {F = F} (compact_wal s n).0 k ≡ load_wal_after s k
  unfolding compact_wal delete_up_to
  compact_wal-load_wal_after s k n up reads above = rw up (
      loaded (record (after_statement s) { wal = rows_after n s.wal }) k reads
      ∙ ap (λ rows. map_err StorageError.wal_load (entries rows))
          (rows_after-rows_after k n s.wal above)
      ∙ sym (loaded s k reads))

  -- A snapshot that is written is the one that is loaded, if no snapshot of a later number is there.
  pub write_snapshot-load_snapshot :
      (s : SqliteBackend) (snapshot : EngineSnapshot F) (blob : Blob)
      → IsWritable s
      → IsWritable (after_statement s)
      → IsReadable s
      → b.serialize_snapshot snapshot ≡ ok blob
      → b.deserialize_snapshot blob ≡ ok snapshot
      → is_ascending s.snapshots ≡ true
      → none_above snapshot.wal_sequence s.snapshots ≡ true
      → ((write_snapshot s snapshot).1 ≡ ok tt)
        × (load_snapshot (write_snapshot s snapshot).0 ≡ ok (some snapshot))
  unfolding write_snapshot load_snapshot prepared_snapshot read_snapshot
  write_snapshot-load_snapshot s snapshot blob up next reads writes codec ascending newest =
      let n = snapshot.wal_sequence in
      let rows = latest_two (replace_row n blob s.snapshots) in
      let s' : SqliteBackend = record (after_statement (after_statement s)) { snapshots = rows } in
      let written : write_snapshot s snapshot ≡ (s', ok tt) =
        ap (write_blob s n) writes ∙ write_blob_ok s n blob up next in
      let found : latest rows ≡ some blob =
        latest-latest_two (replace_row n blob s.snapshots)
        ∙ latest-replace_row n blob s.snapshots ascending newest in
      rw written (refl, rw (reads.0, reads.1, found, codec) refl)
