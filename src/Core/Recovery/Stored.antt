-- ===== src/Core/Recovery/Stored.antt =====
-- A storage that gives back a durable state, and what the calls that the engine makes keep of that.
use spatiad.Base.{
  ℕ, ◌+◌, ◌≤◌, ◌<◌, ◌≡◌, refl, ◌∙◌, sym, ap, Option, none, some, inl, inr, [], ◌∷◌, arith, ok,
}
use spatiad.Platform.{F64, H3, World}
use spatiad.Storage.{StorageBackend, Command, EngineSnapshot}
use spatiad.Storage.Contract.{Contract, after, Below, number}
use spatiad.Core.EventKind.{Codec}
use spatiad.Core.State.{Engine, with_storage}
use spatiad.Core.Recovery.{to_snapshot, of_snapshot, of_snapshot_or_new, replay, recover}
use spatiad.Core.Recovery.Durable.{step, numbered}
use spatiad.Core.Recovery.Replaying.{
  replay_on, replay_on-append, base, number-base, after-Below, Below-append, after-append,
  to_snapshot-replay,
}
use spatiad.Core.Recovery.Kept.{SameLog, replay-SameLog}

module _ {F S : Type 0} ⦃f : F64 F⦄ ⦃h : H3 F⦄ ⦃c : Codec⦄ ⦃b : StorageBackend F S⦄
    (laws : Contract F S) where
  open laws use {limit, IsValid, log, saved}

  -- What the storage holds gives back the state `x`, for a recovery that starts a new engine at the
  -- given resolution if no snapshot is stored.
  pub record IsStored (h3_resolution : ℕ) (s : S) (x : EngineSnapshot F) : Type 0 where
    pub valid : IsValid s
    pub bounded : x.wal_sequence < limit
    pub rebuilt :
        replay_on
          (base h3_resolution (saved s))
          (after (base h3_resolution (saved s)).wal_sequence (log s))
        ≡ x
    pub below : Below x.wal_sequence (log s)
    pub base_le : (base h3_resolution (saved s)).wal_sequence ≤ x.wal_sequence

  module _ (h3_resolution : ℕ) where
    pub kept-IsStored :
        (s s' : S) (x : EngineSnapshot F)
        → SameLog laws s s'
        → IsStored h3_resolution s x
        → IsStored h3_resolution s' x
    kept-IsStored s s' x same d = record {
      valid = same.0;
      bounded = d.bounded;
      rebuilt = rw (same.1, same.2) d.rebuilt;
      below = rw same.1 d.below;
      base_le = rw same.2 d.base_le;
    }

    saved_le :
        (s : S) (x : EngineSnapshot F)
        → IsStored h3_resolution s x
        → number (saved s) ≤ x.wal_sequence
    saved_le s x d = rw (sym (number-base h3_resolution (saved s))) d.base_le

    -- An entry that is appended is part of what the storage gives back.
    pub append_wal-IsStored :
        (s : S) (x : EngineSnapshot F) (cmd : Command F)
        → let n = x.wal_sequence + 1 in
          n < limit
          → (b.append_wal s n cmd).1 ≡ ok tt
          → IsStored h3_resolution s x
          → IsStored h3_resolution (b.append_wal s n cmd).0 (numbered (step x cmd) n)
    unfolding replay_on
    append_wal-IsStored s x cmd room stored d =
        let n = x.wal_sequence + 1 in
        let from = base h3_resolution (saved s) in
        let appended =
          laws.append_wal_ok s x.wal_sequence n cmd d.valid d.below (omega arith) room stored in
        record {
          valid = appended.0;
          bounded = room;
          rebuilt =
              rw (appended.1, appended.2)
                (rw (after-append from.wal_sequence n cmd (log s) (omega (arith, d.base_le))) (
                  replay_on-append from (after from.wal_sequence (log s)) ((n, cmd) ∷ [])
                  ∙ ap (λ y. numbered (step y cmd) n) d.rebuilt));
          below = rw appended.1 (Below-append x.wal_sequence n cmd (log s) d.below (omega arith));
          base_le = rw appended.2 (omega (arith, d.base_le));
        }

    -- A storage that holds the state as its snapshot, and no later entry of the log.
    snapshot-IsStored :
        (s : S) (x : EngineSnapshot F)
        → IsValid s
        → x.wal_sequence < limit
        → saved s ≡ some x
        → Below x.wal_sequence (log s)
        → IsStored h3_resolution s x
    unfolding replay_on
    snapshot-IsStored s x v bounded held below = record {
      valid = v;
      bounded = bounded;
      rebuilt = rw held (rw (after-Below x.wal_sequence (log s) below) refl);
      below = below;
      base_le = rw held (omega arith);
    }

    -- The attempt to write the snapshot of the state, whatever its result.
    pub write_snapshot-IsStored :
        (s : S) (x : EngineSnapshot F)
        → IsStored h3_resolution s x
        → IsStored h3_resolution (b.write_snapshot s x).0 x
    write_snapshot-IsStored s x d =
        let kept = laws.write_snapshot_kept s x d.valid (saved_le s x d) d.bounded in
        elim kept.2 [
          | inl same ↦ kept-IsStored s _ x (kept.0, kept.1, same) d
          | inr new ↦ snapshot-IsStored _ x kept.0 d.bounded new (rw kept.1 d.below)
        ]

    pub saved-write_snapshot :
        (s : S) (x : EngineSnapshot F)
        → IsStored h3_resolution s x
        → (b.write_snapshot s x).1 ≡ ok tt
        → saved (b.write_snapshot s x).0 ≡ some x
    saved-write_snapshot s x d = laws.write_snapshot_ok s x d.valid (saved_le s x d) d.bounded

    -- The attempt to compact the log once the snapshot is written, whatever its result.
    pub compact_wal-IsStored :
        (s : S) (x : EngineSnapshot F)
        → saved s ≡ some x
        → IsStored h3_resolution s x
        → IsStored h3_resolution (b.compact_wal s x.wal_sequence).0 x
    compact_wal-IsStored s x held d =
        let kept = laws.compact_wal_kept s x.wal_sequence d.valid d.bounded in
        elim kept.1 [
          | inl same ↦ kept-IsStored s _ x (kept.0, same, kept.2) d
          | inr less ↦
              snapshot-IsStored _ x kept.0 d.bounded (kept.2 ∙ held)
                (rw (less, after-Below x.wal_sequence (log s) d.below) tt)
        ]

    pub saved-compact_wal :
        (s : S) (x : EngineSnapshot F)
        → saved s ≡ some x
        → IsStored h3_resolution s x
        → saved (b.compact_wal s x.wal_sequence).0 ≡ some x
    saved-compact_wal s x held d =
        (laws.compact_wal_kept s x.wal_sequence d.valid d.bounded).2 ∙ held

    pub log-compact_wal :
        (s : S) (x : EngineSnapshot F)
        → IsStored h3_resolution s x
        → (b.compact_wal s x.wal_sequence).1 ≡ ok tt
        → log (b.compact_wal s x.wal_sequence).0 ≡ []
    log-compact_wal s x d compacted =
        laws.compact_wal_ok s x.wal_sequence d.valid d.bounded compacted
        ∙ after-Below x.wal_sequence (log s) d.below

    of_snapshot_or_new-parts :
        (o : Option (EngineSnapshot F)) (s : S) (w : World)
        → let e = of_snapshot_or_new h3_resolution o s w in
          (to_snapshot e ≡ base h3_resolution o)
          × (e.storage ≡ s)
          × (e.wal_sequence ≡ (base h3_resolution o).wal_sequence)
    unfolding of_snapshot_or_new of_snapshot with_storage to_snapshot
    of_snapshot_or_new-parts none s w = (refl, refl, refl)
    of_snapshot_or_new-parts (some snap) s w = (refl, refl, refl)

    -- `recover` on such a storage succeeds with the state that the storage gives back, and leaves a
    -- storage that still does.
    pub recover-IsStored :
        (s : S) (x : EngineSnapshot F) (w : World)
        → IsStored h3_resolution s x
        → (e : Engine F S) × (recover h3_resolution s w ≡ ok e)
          × (to_snapshot e ≡ x)
          × IsStored h3_resolution e.storage x
    unfolding recover
    recover-IsStored s x w d =
        let start = of_snapshot_or_new h3_resolution (saved s) s w in
        let parts = of_snapshot_or_new-parts (saved s) s w in
        let entries = after start.wal_sequence (log start.storage) in
        let valid : IsValid start.storage = rw parts.1 d.valid in
        let same = replay-SameLog laws start entries valid in
        (
          replay start entries,
          rw (laws.load_snapshot_ok s d.valid) (
              rw (
                laws.load_wal_after_ok start.storage start.wal_sequence valid
                  (rw parts.2 (omega (arith, d.base_le, d.bounded))))),
          to_snapshot-replay start entries ∙ rw (parts.0, parts.1, parts.2) d.rebuilt,
          kept-IsStored s _ x (same.0, same.1 ∙ ap log parts.1, same.2 ∙ ap saved parts.1) d,
        )
