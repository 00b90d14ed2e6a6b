-- ===== src/Storage/Contract.antt =====
-- What the trait `StorageBackend` promises of a backend that stores its data: the comments of the
-- trait, read over the log and the snapshot that the backend holds. Numbers stay below a limit of the
-- backend. A call that fails may have done its work in part.
use spatiad.Base.{
  ℕ, ◌≤◌, ◌<◌, ◌^◌, ◌≡◌, Option, none, some, List, [], ◌∷◌, ◌++◌, filter, ltb, ok, ◌⊎◌,
}
use spatiad.Storage.{StorageBackend, Command, EngineSnapshot, StoredJobEvent}

module _ {F : Type 0} where
  -- The entries with a number above `n`.
  abbrev pub after : ℕ → List (ℕ × Command F) → List (ℕ × Command F)
  after n entries = filter (λ entry. ltb n entry.0) entries

  -- Every number in the log is at most `n`.
  abbrev pub Below : ℕ → List (ℕ × Command F) → Type 0
  Below n [] = Unit {0}
  Below n ((k, _) ∷ rest) = (k ≤ n) × Below n rest

  -- The number of the last entry that a stored snapshot holds.
  abbrev pub number : Option (EngineSnapshot F) → ℕ
  number none = 0
  number (some snapshot) = snapshot.wal_sequence

pub record Contract (F S : Type 0) ⦃b : StorageBackend F S⦄ : Type 1 where
  pub limit : ℕ
  pub limit_le : limit ≤ 2 ^ 64
  -- The states of the backend that the laws speak of.
  pub IsValid : S → Type 0
  -- The log, oldest entry first, and the latest snapshot.
  pub log : S → List (ℕ × Command F)
  pub saved : S → Option (EngineSnapshot F)
  pub load_snapshot_ok : (s : S) → IsValid s → b.load_snapshot s ≡ ok (saved s)
  pub load_wal_after_ok :
      (s : S) (n : ℕ) → IsValid s → n < limit → b.load_wal_after s n ≡ ok (after n (log s))
  pub append_wal_ok :
      (s : S) (m n : ℕ) (cmd : Command F)
      → IsValid s
      → Below m (log s)
      → m < n
      → n < limit
      → let (s', r) = b.append_wal s n cmd in
        r ≡ ok tt → IsValid s' × (log s' ≡ log s ++ ((n, cmd) ∷ [])) × (saved s' ≡ saved s)
  pub append_job_event_kept :
      (s : S) (job_id : ℕ) (event : StoredJobEvent)
      → IsValid s
      → let s' = (b.append_job_event s job_id event).0 in
        IsValid s' × (log s' ≡ log s) × (saved s' ≡ saved s)
  pub write_snapshot_kept :
      (s : S) (snapshot : EngineSnapshot F)
      → IsValid s
      → number (saved s) ≤ snapshot.wal_sequence
      → snapshot.wal_sequence < limit
      → let s' = (b.write_snapshot s snapshot).0 in
        IsValid s' × (log s' ≡ log s) × ((saved s' ≡ saved s) ⊎ (saved s' ≡ some snapshot))
  pub write_snapshot_ok :
      (s : S) (snapshot : EngineSnapshot F)
      → IsValid s
      → number (saved s) ≤ snapshot.wal_sequence
      → snapshot.wal_sequence < limit
      → (b.write_snapshot s snapshot).1 ≡ ok tt
      → saved (b.write_snapshot s snapshot).0 ≡ some snapshot
  pub compact_wal_kept :
      (s : S) (n : ℕ)
      → IsValid s
      → n < limit
      → let s' = (b.compact_wal s n).0 in
        IsValid s' × ((log s' ≡ log s) ⊎ (log s' ≡ after n (log s))) × (saved s' ≡ saved s)
  pub compact_wal_ok :
      (s : S) (n : ℕ)
      → IsValid s
      → n < limit
      → (b.compact_wal s n).1 ≡ ok tt
      → log (b.compact_wal s n).0 ≡ after n (log s)
