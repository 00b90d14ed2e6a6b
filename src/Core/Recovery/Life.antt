-- ===== src/Core/Recovery/Life.antt =====
-- An engine over the whole life of its storage: commands, snapshots, and crashes with the recoveries
-- after them.
use spatiad.Base.{
  ℕ, ◌+◌, ◌<◌, ◌≡◌, refl, ◌∙◌, sym, ap, none, List, [], ◌∷◌, ◌++◌, ok, err, u64, nat_eq, arith,
}
use spatiad.Platform.{F64, H3, World}
use spatiad.Storage.{StorageBackend, Command, EngineSnapshot}
use spatiad.Storage.Contract.{Contract}
use spatiad.Core.EventKind.{Codec}
use spatiad.Core.State.{Engine}
use spatiad.Core.Commands.{append_and_apply}
use spatiad.Core.Recovery.{to_snapshot, recover, create_snapshot}
use spatiad.Core.Recovery.Durable.{step, numbered}
use spatiad.Core.Recovery.Replaying.{empty, replay_on}
use spatiad.Core.Recovery.Kept.{SameLog}
use spatiad.Core.Recovery.Stored.{
  IsStored, kept-IsStored, write_snapshot-IsStored, recover-IsStored,
}
use spatiad.Core.Recovery.Durability.{
  IsDurable, append_wal-IsDurable, u64_small, to_snapshot-append_and_apply,
  append_and_apply-IsDurable, recover-to_snapshot, create_snapshot-IsDurable,
}

module _ {F : Type 0} where
  -- The commands given to the durable state in order, numbered from the next number on.
  unfoldable pub given : EngineSnapshot F → List (Command F) → EngineSnapshot F
  given x [] = x
  given x (cmd ∷ cmds) = given (numbered (step x cmd) (u64 (x.wal_sequence + 1))) cmds

  pub given-append :
      (x : EngineSnapshot F) (cmds : List (Command F)) (cmd : Command F)
      → given x (cmds ++ (cmd ∷ []))
        ≡ numbered (step (given x cmds) cmd) (u64 ((given x cmds).wal_sequence + 1))
  unfolding given
  given-append x [] cmd = refl
  given-append x (first ∷ cmds) cmd =
      given-append (numbered (step x first) (u64 (x.wal_sequence + 1))) cmds cmd

module _ {F S : Type 0} ⦃f : F64 F⦄ ⦃h : H3 F⦄ ⦃c : Codec⦄ ⦃b : StorageBackend F S⦄
    (laws : Contract F S) where
  open laws use {limit, IsValid, log, saved}

  -- The engines that a storage that was empty at first can have, with the commands they were given: a
  -- snapshot may fail at any point, and a crash may strike between calls, between an append and the
  -- command, and between the snapshot and the compaction. After a crash the storage is opened again as `s`.
  pub data Life (h3_resolution : ℕ) : List (Command F) → Engine F S → Type 0 where
    started :
        (s : S) (w : World) (e : Engine F S)
        → IsValid s
        → 0 < limit
        → log s ≡ []
        → saved s ≡ none
        → recover h3_resolution s w ≡ ok e
        → Life h3_resolution [] e
    commanded :
        (cmds : List (Command F)) (e : Engine F S) (cmd : Command F)
        → Life h3_resolution cmds e
        → e.wal_sequence + 1 < limit
        → (b.append_wal e.storage (u64 (e.wal_sequence + 1)) cmd).1 ≡ ok tt
        → Life h3_resolution (cmds ++ (cmd ∷ [])) (append_and_apply e cmd)
    waited :
        (cmds : List (Command F)) (e : Engine F S) (w : World)
        → Life h3_resolution cmds e
        → Life h3_resolution cmds (record e { world = w })
    snapshotted :
        (cmds : List (Command F)) (e : Engine F S)
        → Life h3_resolution cmds e
        → Life h3_resolution cmds (create_snapshot e).0
    crashed :
        (cmds : List (Command F)) (e e' : Engine F S) (s : S) (w : World)
        → Life h3_resolution cmds e
        → SameLog laws e.storage s
        → recover h3_resolution s w ≡ ok e'
        → Life h3_resolution cmds e'
    crashed_in_command :
        (cmds : List (Command F)) (e e' : Engine F S) (cmd : Command F) (s : S) (w : World)
        → Life h3_resolution cmds e
        → e.wal_sequence + 1 < limit
        → (b.append_wal e.storage (e.wal_sequence + 1) cmd).1 ≡ ok tt
        → SameLog laws (b.append_wal e.storage (e.wal_sequence + 1) cmd).0 s
        → recover h3_resolution s w ≡ ok e'
        → Life h3_resolution (cmds ++ (cmd ∷ [])) e'
    crashed_in_snapshot :
        (cmds : List (Command F)) (e e' : Engine F S) (s : S) (w : World)
        → Life h3_resolution cmds e
        → SameLog laws (b.write_snapshot e.storage (to_snapshot e)).0 s
        → recover h3_resolution s w ≡ ok e'
        → Life h3_resolution cmds e'

  -- The engine has the state, and its storage gives it back.
  Refines : ℕ → EngineSnapshot F → Engine F S → Type 0
  Refines h3_resolution x e = (to_snapshot e ≡ x) × IsDurable laws h3_resolution e

  recovered :
      (h3_resolution : ℕ) (s : S) (x : EngineSnapshot F) (w : World) (e : Engine F S)
      → recover h3_resolution s w ≡ ok e
      → IsStored laws h3_resolution s x
      → Refines h3_resolution x e
  unfolding Refines
  recovered h3_resolution s x w e p d =
      let found = recover-IsStored laws h3_resolution s x w d in
      let same : found.0 ≡ e = ap (λ r. elim r [ ok a ↦ a | err _ ↦ e ]) (sym found.1 ∙ p) in
      (rw (sym same) found.2, rw (sym same) (rw found.2 found.3))

  new-IsStored :
      (h3_resolution : ℕ) (s : S)
      → IsValid s
      → 0 < limit
      → log s ≡ []
      → saved s ≡ none
      → IsStored laws h3_resolution s (empty h3_resolution)
  unfolding replay_on
  new-IsStored h3_resolution s v room no_entry no_snapshot = record {
    valid = v;
    bounded = room;
    rebuilt = rw (no_snapshot, no_entry) refl;
    below = rw no_entry tt;
    base_le = rw no_snapshot (omega arith);
  }

  next :
      (h3_resolution : ℕ) (cmds : List (Command F)) (e : Engine F S) (cmd : Command F)
      → e.wal_sequence + 1 < limit
      → to_snapshot e ≡ given (empty h3_resolution) cmds
      → numbered (step (to_snapshot e) cmd) (e.wal_sequence + 1)
        ≡ given (empty h3_resolution) (cmds ++ (cmd ∷ []))
  unfolding to_snapshot
  next h3_resolution cmds e cmd room same =
      ap (numbered (step (to_snapshot e) cmd)) (sym (u64_small laws (e.wal_sequence + 1) room))
      ∙ ap (λ y. numbered (step y cmd) (u64 (y.wal_sequence + 1))) same
      ∙ sym (given-append (empty h3_resolution) cmds cmd)

  waited_given :
      (h3_resolution : ℕ) (cmds : List (Command F)) (e : Engine F S) (w : World)
      → (to_snapshot e ≡ given (empty h3_resolution) cmds) × IsDurable laws h3_resolution e
      → let e' : Engine F S = record e { world = w } in
        (to_snapshot e' ≡ given (empty h3_resolution) cmds) × IsDurable laws h3_resolution e'
  unfolding to_snapshot
  waited_given h3_resolution cmds e w before = before

  pub Life-given :
      (h3_resolution : ℕ) (cmds : List (Command F)) (e : Engine F S)
      → Life h3_resolution cmds e
      → (to_snapshot e ≡ given (empty h3_resolution) cmds) × IsDurable laws h3_resolution e
  unfolding given Refines
  Life-given r _ _ (started s w e v room no_entry no_snapshot p) =
      recovered r s (empty r) w e p (new-IsStored r s v room no_entry no_snapshot)
  Life-given r _ _ (commanded cmds e cmd life room stored) =
      let before = Life-given r cmds e life in
      (
        to_snapshot-append_and_apply laws e cmd room ∙ next r cmds e cmd room before.0,
        append_and_apply-IsDurable laws r e cmd room stored before.1,
      )
  Life-given r _ _ (waited cmds e w life) = waited_given r cmds e w (Life-given r cmds e life)
  Life-given r _ _ (snapshotted cmds e life) =
      let before = Life-given r cmds e life in
      let after = create_snapshot-IsDurable laws r e before.1 in (after.0 ∙ before.0, after.1)
  Life-given r _ _ (crashed cmds e e' s w life same p) =
      let before = Life-given r cmds e life in
      recovered r s _ w e' p (rw (sym before.0) (kept-IsStored laws r e.storage s _ same before.1))
  Life-given r _ _ (crashed_in_command cmds e e' cmd s w life room stored same p) =
      let before = Life-given r cmds e life in
      recovered r s _ w e' p (
        rw (sym (next r cmds e cmd room before.0)) (
          kept-IsStored laws r _ s _ same (append_wal-IsDurable laws r e cmd room stored before.1)))
  Life-given r _ _ (crashed_in_snapshot cmds e e' s w life same p) =
      let before = Life-given r cmds e life in
      recovered r s _ w e' p (
        rw (sym before.0) (
          kept-IsStored laws r _ s _ same
            (write_snapshot-IsStored laws r e.storage (to_snapshot e) before.1)))

  -- At any point of the life of a storage, in which no append fails, the durable state of the engine is that of a new engine given
  -- the commands in order, and so is that of the engine that a recovery from its storage makes, which
  -- succeeds.
  pub Life-recover :
      (h3_resolution : ℕ) (cmds : List (Command F)) (e : Engine F S) (w : World)
      → Life h3_resolution cmds e
      → let x = given (empty h3_resolution) cmds in
        (to_snapshot e ≡ x)
        × (e' : Engine F S) × (recover h3_resolution e.storage w ≡ ok e')
        × (to_snapshot e' ≡ x)
  Life-recover h3_resolution cmds e w life =
      let now = Life-given h3_resolution cmds e life in
      let then = recover-to_snapshot laws h3_resolution e w now.1 in
      (now.0, then.0, then.1, then.2 ∙ now.0)
