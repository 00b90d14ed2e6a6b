-- ===== src/Tests/Log.antt =====
-- A backend that keeps its log and its snapshot in memory, and an engine that starts on it.
use spatiad.Base.{inr, ◌^◌, ℕ, refl, false, Option, none, some, List, [], ◌∷◌, ◌++◌, ok, arith}
use spatiad.Storage.{StorageBackend, Command, EngineSnapshot}
use spatiad.Core.State.{Engine, with_storage}
use spatiad.Storage.Contract.{Contract, after}
use spatiad.Core.Recovery.Durability.{IsDurable}
use spatiad.Core.Recovery.{to_snapshot}
use spatiad.Core.Recovery.Replaying.{replay_on}
use spatiad.Tests.Fixture.{thousandths, grid, mute, world}

pub record LogStore : Type 0 where
  pub log : List (ℕ × Command ℕ)
  pub saved : Option (EngineSnapshot ℕ)

instance abbrev pub log_backend : StorageBackend ℕ LogStore
log_backend = record {
  append_wal = λ s n cmd. (record s { log = s.log ++ ((n, cmd) ∷ []) }, ok tt);
  write_snapshot = λ s snapshot. (record s { saved = some snapshot }, ok tt);
  load_snapshot = λ s. ok s.saved;
  load_wal_after = λ s n. ok (after n s.log);
  compact_wal = λ s n. (record s { log = after n s.log }, ok tt);
  append_job_event = λ s _ _. (s, ok tt);
  query_job_events = λ _ _ _ _ _. ok [];
  is_persistent = λ _. false;
}

abbrev pub log_contract : Contract ℕ LogStore
log_contract = record {
  limit = 2 ^ 64;
  limit_le = omega arith;
  IsValid = λ _. Unit {0};
  log = λ s. s.log;
  saved = λ s. s.saved;
  load_snapshot_ok = λ s v. refl;
  load_wal_after_ok = λ s n v l. refl;
  append_wal_ok = λ s m n cmd v below up room p. (tt, refl, refl);
  append_job_event_kept = λ s job_id event v. (tt, refl, refl);
  write_snapshot_kept = λ s snapshot v old room. (tt, refl, inr refl);
  write_snapshot_ok = λ s snapshot v old room p. refl;
  compact_wal_kept = λ s n v room. (tt, inr refl, refl);
  compact_wal_ok = λ s n v room p. refl;
}

abbrev pub empty_store : LogStore
empty_store = record { log = []; saved = none }

abbrev pub started : Engine ℕ LogStore
started = with_storage 8 empty_store world

pub started-IsDurable : IsDurable log_contract 8 started
unfolding with_storage to_snapshot replay_on
started-IsDurable = record {
  valid = tt;
  bounded = omega arith;
  rebuilt = refl;
  below = tt;
  base_le = omega arith;
}
