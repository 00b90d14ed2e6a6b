-- ===== src/Storage/Postgres/Durable.antt =====
-- rust/crates/spatiad-storage/src/pg.rs: the backend over PostgreSQL keeps what the trait promises, while
-- statements that read succeed; those that write may fail.
use spatiad.Base.{ℕ, ◌<◌, refl, ◌≡◌, ◌^◌, inl, inr, ok, arith, nat_eq, ap}
use spatiad.Storage.Contract.{Contract, after}
use spatiad.Storage.Tables.{Bincode, UuidText, rows_after}
use spatiad.Storage.Tables.Logged.{entries-IsLog, rows_after-IsLog}
use spatiad.Storage.Tables.Snapshots.{held-cases}
use spatiad.Storage.Tables.Sound.{
  RoundTrips, IsSound, log_of, saved_of, append_blob-IsSound, write_blob-IsSound,
  delete_up_to-IsSound, insert_event-IsSound, either, succeeded,
}
use spatiad.Storage.Postgres.{
  PostgresBackend, postgres_backend, Timestamptz, append_wal, write_snapshot, load_snapshot,
  load_wal_after, compact_wal, append_job_event, read_snapshot,
}

module _ {F : Type 0} ⦃b : Bincode F⦄ ⦃k : Timestamptz⦄ ⦃u : UuidText⦄ where
  pub load_wal_after_ok :
      (s : PostgresBackend) (n : ℕ)
      → IsSound b s
      → n < 2 ^ 63
      → load_wal_after s n ≡ ok (after n (log_of b s))
  unfolding load_wal_after
  load_wal_after_ok s n v room =
      let rest = rows_after-IsLog b n s.wal room v.entries in
      rw (v.prepared, v.queried) (rw (entries-IsLog b (rows_after n s.wal) rest.0) (ap ok rest.1))

  pub load_snapshot_ok : (s : PostgresBackend) → IsSound b s → load_snapshot s ≡ ok (saved_of b s)
  unfolding load_snapshot read_snapshot
  load_snapshot_ok s v = elim (held-cases b s.snapshots v.snapshots) [
    | inl (none_found, no_snapshot) ↦
        rw (v.prepared, v.queried) (rw none_found (rw no_snapshot refl))
    | inr (blob, x, found, read, snapshot) ↦
        rw (v.prepared, v.queried) (rw found (rw read (rw snapshot refl)))
  ]

  unfoldable pub postgres_contract : RoundTrips b → Contract F PostgresBackend
  unfolding append_wal write_snapshot compact_wal append_job_event
  postgres_contract codec = record {
    limit = 2 ^ 63;
    limit_le = omega arith;
    IsValid = IsSound b;
    log = log_of b;
    saved = saved_of b;
    load_snapshot_ok = load_snapshot_ok;
    load_wal_after_ok = load_wal_after_ok;
    append_wal_ok = λ s m n cmd v below up room stored.
        append_blob-IsSound b codec s m n cmd v below up room stored;
    append_job_event_kept = λ s job_id event v. insert_event-IsSound b s _ v;
    write_snapshot_kept = λ s x v old room.
        let w = write_blob-IsSound b codec s x v old room in (w.0, w.1, either w.2);
    write_snapshot_ok =
        λ s x v old room p. succeeded _ (write_blob-IsSound b codec s x v old room).2 p;
    compact_wal_kept =
        λ s n v room. let w = delete_up_to-IsSound b s n v room in (w.0, either w.1, w.2);
    compact_wal_ok = λ s n v room p. succeeded _ (delete_up_to-IsSound b s n v room).1 p;
  }
