-- ===== src/Core/Recovery/Durability.antt =====
-- What `append_and_apply`, `create_snapshot` and `recover` make of a storage that gives back the durable
-- state of the engine.
use spatiad.Base.Text.{Text}
use spatiad.Base.{
  [], some, err, ◌⊎◌, ℕ, ◌+◌, ◌<◌, ◌≡◌, refl, ◌∙◌, sym, ap, inl, inr, Result-cases, u64, nat_eq,
  arith, ok,
}
use spatiad.Platform.{F64, H3, World}
use spatiad.Storage.{StorageBackend, Command}
use spatiad.Storage.Contract.{Contract}
use spatiad.Core.EventKind.{Codec}
use spatiad.Core.State.{Engine}
use spatiad.Core.Commands.{append_and_apply, apply_command}
use spatiad.Core.Recovery.{to_snapshot, recover, create_snapshot}
use spatiad.Core.Recovery.Durable.{step, numbered, step-numbered, to_snapshot-apply_command}
use spatiad.Core.Recovery.Kept.{apply_command-SameLog}
use spatiad.Core.Recovery.Stored.{
  IsStored, kept-IsStored, append_wal-IsStored, write_snapshot-IsStored, saved-write_snapshot,
  compact_wal-IsStored, saved-compact_wal, log-compact_wal, recover-IsStored,
}

module _ {F S : Type 0} ⦃f : F64 F⦄ ⦃h : H3 F⦄ ⦃c : Codec⦄ ⦃b : StorageBackend F S⦄
    (laws : Contract F S) where
  open laws use {limit, limit_le, log, saved}

  -- The storage of the engine gives back its durable state.
  abbrev pub IsDurable : ℕ → Engine F S → Type 0
  IsDurable h3_resolution e = IsStored laws h3_resolution e.storage (to_snapshot e)

  pub u64_small : (n : ℕ) → n < limit → u64 n ≡ n
  u64_small n p = ground (arith, p, limit_le)

  pub append_wal-IsDurable :
      (h3_resolution : ℕ) (e : Engine F S) (cmd : Command F)
      → let n = e.wal_sequence + 1 in
        n < limit
        → (b.append_wal e.storage n cmd).1 ≡ ok tt
        → IsDurable h3_resolution e
        → IsStored laws h3_resolution
            (b.append_wal e.storage n cmd).0
            (numbered (step (to_snapshot e) cmd) n)
  unfolding to_snapshot
  append_wal-IsDurable h3_resolution e cmd room stored d =
      append_wal-IsStored laws h3_resolution e.storage (to_snapshot e) cmd room stored d

  -- The command of an entry that is appended is applied to an engine `a` that differs from `e` in the
  -- number and the storage alone.
  advance :
      (h3_resolution : ℕ) (e a : Engine F S) (cmd : Command F)
      → e.wal_sequence + 1 < limit
      → (b.append_wal e.storage (e.wal_sequence + 1) cmd).1 ≡ ok tt
      → to_snapshot a ≡ numbered (to_snapshot e) (e.wal_sequence + 1)
      → a.storage ≡ (b.append_wal e.storage (e.wal_sequence + 1) cmd).0
      → IsDurable h3_resolution e
      → IsDurable h3_resolution (apply_command a cmd)
  unfolding to_snapshot
  advance h3_resolution e a cmd room stored same held d =
      let x = to_snapshot e in
      let n = e.wal_sequence + 1 in
      let appended = append_wal-IsDurable h3_resolution e cmd room stored d in
      let before : IsStored laws h3_resolution a.storage (numbered (step x cmd) n) =
        rw held appended in
      let state : to_snapshot (apply_command a cmd) ≡ numbered (step x cmd) n =
        to_snapshot-apply_command a cmd ∙ ap (λ y. step y cmd) same ∙ step-numbered x n cmd in
      rw state (
        kept-IsStored laws h3_resolution a.storage _ (numbered (step x cmd) n)
          (apply_command-SameLog laws a cmd before.valid) before)

  pub to_snapshot-append_and_apply :
      (e : Engine F S) (cmd : Command F)
      → e.wal_sequence + 1 < limit
      → to_snapshot (append_and_apply e cmd)
        ≡ numbered (step (to_snapshot e) cmd) (e.wal_sequence + 1)
  unfolding append_and_apply to_snapshot
  to_snapshot-append_and_apply e cmd room =
      to_snapshot-apply_command _ cmd
      ∙ ap (λ n. step (numbered (to_snapshot e) n) cmd) (u64_small (e.wal_sequence + 1) room)
      ∙ step-numbered (to_snapshot e) (e.wal_sequence + 1) cmd

  module _ (h3_resolution : ℕ) where
    -- If the storage gives back the durable state, then `recover` on that storage succeeds, the
    -- durable state of the recovered engine is that of the engine before the crash, and the storage of
    -- the recovered engine gives it back again.
    pub recover-to_snapshot :
        (e : Engine F S) (w : World)
        → IsDurable h3_resolution e
        → (e' : Engine F S) × (recover h3_resolution e.storage w ≡ ok e')
          × (to_snapshot e' ≡ to_snapshot e)
          × IsDurable h3_resolution e'
    recover-to_snapshot e w d =
        let found = recover-IsStored laws h3_resolution e.storage (to_snapshot e) w d in
        (found.0, found.1, found.2, rw found.2 found.3)

    -- A command whose append succeeds keeps the storage able to give back the durable state, while the
    -- log's numbers stay below the limit of the backend.
    pub append_and_apply-IsDurable :
        (e : Engine F S) (cmd : Command F)
        → e.wal_sequence + 1 < limit
        → (b.append_wal e.storage (u64 (e.wal_sequence + 1)) cmd).1 ≡ ok tt
        → IsDurable h3_resolution e
        → IsDurable h3_resolution (append_and_apply e cmd)
    unfolding append_and_apply
    append_and_apply-IsDurable e cmd room stored d =
        let n = u64_small (e.wal_sequence + 1) room in
        advance h3_resolution e _ cmd room (rw (sym n) stored)
          (unfold to_snapshot in ap (numbered (to_snapshot e)) n)
          (ap (λ k. (b.append_wal e.storage k cmd).0) n) d

    -- An attempt to write the snapshot and to compact the log, whatever its result, changes nothing of
    -- the durable state, and the storage still gives it back. If it succeeds, the snapshot is the durable
    -- state and the log is empty.
    pub create_snapshot-IsDurable :
        (e : Engine F S)
        → IsDurable h3_resolution e
        → let (e', r) = create_snapshot e in
          (to_snapshot e' ≡ to_snapshot e)
          × IsDurable h3_resolution e'
          × (((message : Text) × (r ≡ err message))
              ⊎ ((r ≡ ok tt) × (saved e'.storage ≡ some (to_snapshot e)) × (log e'.storage ≡ [])))
    unfolding create_snapshot to_snapshot
    create_snapshot-IsDurable e d =
        let x = to_snapshot e in
        let s = (b.write_snapshot e.storage x).0 in
        let written = write_snapshot-IsStored laws h3_resolution e.storage x d in
        elim (Result-cases (b.write_snapshot e.storage x).1) [
          | inr (_, p) ↦ rw p (refl, written, inl (_, refl))
          | inl (_, p) ↦
              let held = saved-write_snapshot laws h3_resolution e.storage x d p in
              let compacted = compact_wal-IsStored laws h3_resolution s x held written in
              rw p (
                refl,
                compacted,
                elim (Result-cases (b.compact_wal s x.wal_sequence).1) [
                  | inr (_, q) ↦ rw q (inl (_, refl))
                  | inl (_, q) ↦ rw q (
                      inr (
                        refl,
                        saved-compact_wal laws h3_resolution s x held written,
                        log-compact_wal laws h3_resolution s x written q,
                      ))
                ],
              )
        ]
