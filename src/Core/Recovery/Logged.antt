-- ===== src/Core/Recovery/Logged.antt =====
-- Changes of an engine that consist of logged commands, with the clock and the ids
-- read and snapshots attempted between them.
use spatiad.Base.{
  Result-cases, inl, inr, ℕ, ◌+◌, ◌<◌, ◌≡◌, refl, ◌∙◌, sym, ap, none, List, [], ◌∷◌, ◌++◌, length,
  u64, nat_eq, ok, arith, snoc-append, append_nil,
}
use spatiad.Platform.{F64, H3, World}
use spatiad.Storage.{StorageBackend, Command}
use spatiad.Storage.Contract.{Contract}
use spatiad.Core.EventKind.{Codec}
use spatiad.Core.State.{Engine, with_storage}
use spatiad.Core.Commands.{append_and_apply}
use spatiad.Core.Recovery.{create_snapshot, to_snapshot, recover, of_snapshot_or_new, replay}
use spatiad.Core.Recovery.Durability.{to_snapshot-append_and_apply}
use spatiad.Core.Recovery.Durable.{step, numbered, step-numbered, to_snapshot-apply_command}
use spatiad.Core.Recovery.Life.{Life, given, Life-recover}

module _ {F S : Type 0} ⦃f : F64 F⦄ ⦃h : H3 F⦄ ⦃c : Codec⦄ ⦃b : StorageBackend F S⦄ where
  -- The second engine is the first after the commands were appended and applied in order. Snapshots may
  -- be attempted between them.
  pub data Logged : List (Command F) → Engine F S → Engine F S → Type 0 where
    read : (e : Engine F S) (w : World) → Logged [] e (record e { world = w })
    append :
        (e e' : Engine F S) (w : World) (cmd : Command F) (cmds : List (Command F))
        → Logged cmds (append_and_apply (record e { world = w }) cmd) e'
        → Logged (cmd ∷ cmds) e e'
    snapshot :
        (e e' : Engine F S) (w : World) (cmds : List (Command F))
        → Logged cmds (create_snapshot (record e { world = w })).0 e'
        → Logged cmds e e'

  abbrev pub IsLogged : Engine F S → Engine F S → Type 0
  IsLogged e e' = (cmds : List (Command F)) × Logged cmds e e'

  pub unchanged : (e : Engine F S) → IsLogged e e
  unchanged e = ([], Logged.read e e.world)

  pub one_snapshot : (e : Engine F S) → IsLogged e (create_snapshot e).0
  one_snapshot e = (
    [],
    Logged.snapshot e _ e.world [] (Logged.read (create_snapshot e).0 (create_snapshot e).0.world),
  )

  -- One command, once the clock and the ids are read.
  pub one_command :
      (e : Engine F S) (w : World) (cmd : Command F)
      → IsLogged e (append_and_apply (record e { world = w }) cmd)
  one_command e w cmd = (
    cmd ∷ [],
    Logged.append e _ w cmd [] (
        Logged.read (append_and_apply (record e { world = w }) cmd)
          (append_and_apply (record e { world = w }) cmd).world),
  )

  pub now_one : (e : Engine F S) (cmd : Command F) → IsLogged e (append_and_apply e cmd)
  now_one e cmd = one_command e e.world cmd

  waiting :
      (e e' : Engine F S) (w : World) (cmds : List (Command F))
      → Logged cmds (record e { world = w }) e'
      → Logged cmds e e'
  waiting e _ w _ (Logged.read _ w') = Logged.read e w'
  waiting e e' w _ (Logged.append _ _ w' cmd cmds l) = Logged.append e e' w' cmd cmds l
  waiting e e' w cmds (Logged.snapshot _ _ w' _ l) = Logged.snapshot e e' w' cmds l

  -- The clock and the ids are read first.
  pub read_first :
      (e : Engine F S) (w : World) (e' : Engine F S)
      → IsLogged (record e { world = w }) e'
      → IsLogged e e'
  read_first e w e' l = (l.0, waiting e e' w l.0 l.1)

  joined :
      (xs ys : List (Command F)) (e e' e'' : Engine F S)
      → Logged xs e e'
      → Logged ys e' e''
      → Logged (xs ++ ys) e e''
  joined _ ys _ _ e'' (Logged.read e w) more = waiting e e'' w ys more
  joined _ ys _ e' e'' (Logged.append e _ w cmd cmds l) more =
      Logged.append e e'' w cmd (cmds ++ ys) (joined cmds ys _ e' e'' l more)
  joined xs ys _ e' e'' (Logged.snapshot e _ w _ l) more =
      Logged.snapshot e e'' w (xs ++ ys) (joined xs ys _ e' e'' l more)

  -- One change after another.
  pub IsLogged-and : (e e' e'' : Engine F S) → IsLogged e e' → IsLogged e' e'' → IsLogged e e''
  IsLogged-and e e' e'' l m = (l.0 ++ m.0, joined l.0 m.0 e e' e'' l.1 m.1)

  applied :
      (e : Engine F S) (w : World) (cmd : Command F)
      → to_snapshot (append_and_apply (record e { world = w }) cmd)
        ≡ numbered (step (to_snapshot e) cmd) (u64 (e.wal_sequence + 1))
  unfolding append_and_apply to_snapshot
  applied e w cmd =
      to_snapshot-apply_command _ cmd ∙ step-numbered (to_snapshot e) (u64 (e.wal_sequence + 1)) cmd

  same_state :
      (e : Engine F S) (w : World)
      → to_snapshot (create_snapshot (record e { world = w })).0 ≡ to_snapshot e
  unfolding create_snapshot to_snapshot
  same_state e w = elim (Result-cases (b.write_snapshot e.storage (to_snapshot e)).1) [
    | inr (_, p) ↦ rw p refl
    | inl (_, p) ↦ rw p refl
  ]

  -- The durable state after logged commands is that which the commands make of it.
  pub Logged-given :
      (cmds : List (Command F)) (e e' : Engine F S)
      → Logged cmds e e'
      → to_snapshot e' ≡ given (to_snapshot e) cmds
  unfolding given to_snapshot
  Logged-given _ e _ (Logged.read _ w) = refl
  Logged-given _ e e' (Logged.append _ _ w cmd cmds l) =
      Logged-given cmds (append_and_apply (record e { world = w }) cmd) e' l
      ∙ ap (λ x. given x cmds) (applied e w cmd)
  Logged-given cmds e e' (Logged.snapshot _ _ w _ l) =
      Logged-given cmds (create_snapshot (record e { world = w })).0 e' l
      ∙ ap (λ x. given x cmds) (same_state e w)

  -- Every append of the commands succeeded.
  abbrev pub AllStored : {cmds : List (Command F)} {e e' : Engine F S} → Logged cmds e e' → Type 0
  AllStored (Logged.read e w) = Unit {0}
  AllStored (Logged.append e e' w cmd cmds l) =
      ((b.append_wal e.storage (u64 (e.wal_sequence + 1)) cmd).1 ≡ ok tt) × AllStored l
  AllStored (Logged.snapshot e e' w cmds l) = AllStored l

module _ {F S : Type 0} ⦃f : F64 F⦄ ⦃h : H3 F⦄ ⦃c : Codec⦄ ⦃b : StorageBackend F S⦄
    (laws : Contract F S) where
  open laws use {limit, IsValid, log, saved}

  appended_number :
      (e : Engine F S) (cmd : Command F)
      → e.wal_sequence + 1 < limit
      → (append_and_apply e cmd).wal_sequence ≡ e.wal_sequence + 1
  unfolding to_snapshot
  appended_number e cmd room =
      ap (λ x. x.wal_sequence) (to_snapshot-append_and_apply laws e cmd room)

  same_number :
      (e : Engine F S) (w : World)
      → (create_snapshot (record e { world = w })).0.wal_sequence ≡ e.wal_sequence
  unfolding to_snapshot
  same_number e w = ap (λ x. x.wal_sequence) (same_state e w)

  -- Logged commands whose appends succeed go on with the life of a storage.
  pub Logged-Life :
      (h3_resolution : ℕ) (past cmds : List (Command F)) (e e' : Engine F S)
      → Life laws h3_resolution past e
      → (l : Logged cmds e e') → AllStored l
      → e.wal_sequence + length cmds < limit
      → Life laws h3_resolution (past ++ cmds) e'
  Logged-Life r past _ e _ life (Logged.read _ w) stored room =
      rw (append_nil past) (Life.waited past e w life)
  Logged-Life r past _ e e' life (Logged.append _ _ w cmd cmds l) stored room =
      let now : e.wal_sequence + 1 < limit = omega (arith, room) in
      let next =
        Life.commanded past (record e { world = w }) cmd (Life.waited past e w life) now stored.0 in
      let number : (append_and_apply (record e { world = w }) cmd).wal_sequence
          ≡ e.wal_sequence + 1 =
        appended_number (record e { world = w }) cmd now in
      rw (sym (snoc-append past cmd cmds))
        (Logged-Life r (past ++ (cmd ∷ [])) cmds _ e' next l stored.1 (omega (arith, number, room)))
  Logged-Life r past cmds e e' life (Logged.snapshot _ _ w _ l) stored room =
      let number : (create_snapshot (record e { world = w })).0.wal_sequence ≡ e.wal_sequence =
        same_number e w in
      Logged-Life r past cmds _ e'
        (Life.snapshotted past (record e { world = w }) (Life.waited past e w life)) l stored
        (omega (arith, number, room))

  -- A new engine over a storage without entries and snapshot begins a life.
  pub with_storage-Life :
      (h3_resolution : ℕ) (s : S) (w : World)
      → IsValid s
      → 0 < limit
      → log s ≡ []
      → saved s ≡ none
      → Life laws h3_resolution [] (with_storage h3_resolution s w)
  unfolding recover of_snapshot_or_new with_storage replay
  with_storage-Life r s w v room no_entry no_snapshot =
      Life.started s w (with_storage r s w) v room no_entry no_snapshot (
        rw (laws.load_snapshot_ok s v)
          (rw no_snapshot (rw (laws.load_wal_after_ok s 0 v room) (rw no_entry refl))))

  -- A new engine over a storage without entries and snapshot is given commands. If no append failed,
  -- and the number of the commands is below the limit of the storage, then a recovery at any later time
  -- succeeds with the durable state of the engine.
  pub Logged-recover :
      (h3_resolution : ℕ) (s : S) (w later : World) (cmds : List (Command F)) (e : Engine F S)
      → IsValid s
      → log s ≡ []
      → saved s ≡ none
      → (l : Logged cmds (with_storage h3_resolution s w) e) → AllStored l
      → length cmds < limit
      → (e' : Engine F S) × (recover h3_resolution e.storage later ≡ ok e')
        × (to_snapshot e' ≡ to_snapshot e)
  unfolding with_storage
  Logged-recover r s w later cmds e valid no_entry no_snapshot l stored room =
      let start = with_storage-Life r s w valid (omega (arith, room)) no_entry no_snapshot in
      let life =
        Logged-Life r [] cmds (with_storage r s w) e start l stored (omega (arith, room)) in
      let (same, e', recovered, again) = Life-recover laws r cmds e later life in
      (e', recovered, again ∙ sym same)
