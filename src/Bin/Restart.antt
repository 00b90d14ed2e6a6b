-- ===== src/Bin/Restart.antt =====
-- rust/crates/spatiad-bin/src/main.rs: an orderly end of the server and its next start.
use spatiad.Base.{ℕ, zero, suc, ◌+◌, ◌≡◌, refl, sym, ◌∙◌, true, ok}
use mathlib.Core.Path.{subst}
use spatiad.Base.Text.{Text}
use spatiad.Platform.{F64, H3, World}
use spatiad.Storage.{StorageBackend}
use spatiad.Core.EventKind.{Codec}
use spatiad.Core.State.{Engine}
use spatiad.Core.Recovery.{to_snapshot, create_snapshot}
use spatiad.Storage.Contract.{Contract}
use spatiad.Core.Recovery.Logged.{IsLogged, unchanged, one_snapshot, IsLogged-and}
use spatiad.Core.Recovery.Kept.{SameLog}
use spatiad.Core.Recovery.Stored.{kept-IsStored, recover-IsStored}
use spatiad.Core.Recovery.Durability.{IsDurable, create_snapshot-IsDurable}
use spatiad.Api.State.{ApiState, Tasks, acquire}
use spatiad.Bin.{
  Environment, h3_resolution, is_persistent, recovered_engine, snapshot_round, snapshot_rounds,
  shut_down,
}

module _ {F S : Type 0} ⦃f : F64 F⦄ ⦃h : H3 F⦄ ⦃c : Codec⦄ ⦃b : StorageBackend F S⦄ ⦃t : Tasks F S⦄
    (laws : Contract F S) where
  shut_down-dispatch :
      (env : Environment) (s : ApiState F S)
      → is_persistent env ≡ true
      → (shut_down env s).dispatch ≡ (create_snapshot (acquire s).dispatch).0
  unfolding shut_down snapshot_round
  shut_down-dispatch env s persistent = rw persistent refl

  pub shut_down-valid :
      (env : Environment) (s : ApiState F S)
      → is_persistent env ≡ true
      → IsDurable laws (h3_resolution env) (acquire s).dispatch
      → laws.IsValid (shut_down env s).dispatch.storage
  shut_down-valid env s persistent d =
      let ended = create_snapshot-IsDurable laws (h3_resolution env) (acquire s).dispatch d in
      subst (λ e. laws.IsValid e.storage) (sym (shut_down-dispatch env s persistent)) ended.1.valid

  -- A server over a database that is shut down with a storage that can give back the durable state, on
  -- a storage that the next process finds with the same log and snapshot, starts again with the same
  -- durable state, whether the last snapshot succeeds or not.
  pub shut_down-reopened :
      (env : Environment) (context : Text) (s : ApiState F S) (found : S) (world : World)
      → is_persistent env ≡ true
      → let e = (acquire s).dispatch in
        IsDurable laws (h3_resolution env) e
        → SameLog laws (shut_down env s).dispatch.storage found
        → (next : Engine F S) × (recovered_engine env context (ok found) world ≡ ok next)
          × (to_snapshot next ≡ to_snapshot e)
          × IsDurable laws (h3_resolution env) next
  unfolding recovered_engine
  shut_down-reopened env context s found world persistent d same =
      let r = h3_resolution env in
      let ended = create_snapshot-IsDurable laws r (acquire s).dispatch d in
      let left =
        subst (λ e. SameLog laws e.storage found) (shut_down-dispatch env s persistent) same in
      let next =
        recover-IsStored laws r found _ world (kept-IsStored laws r _ found _ left ended.1) in
      rw next.1 (next.0, refl, next.2 ∙ ended.0, rw next.2 next.3)

  -- The same on the storage as the server leaves it.
  pub shut_down-recovered_engine :
      (env : Environment) (context : Text) (s : ApiState F S) (world : World)
      → is_persistent env ≡ true
      → let e = (acquire s).dispatch in
        IsDurable laws (h3_resolution env) e
        → (next : Engine F S) × (recovered_engine env context
              (ok (shut_down env s).dispatch.storage)
              world
            ≡ ok next)
          × (to_snapshot next ≡ to_snapshot e)
  shut_down-recovered_engine env context s world persistent d =
      let valid = shut_down-valid env s persistent d in
      let next = shut_down-reopened env context s _ world persistent d (valid, refl, refl) in
      (next.0, next.1, next.2)

module _ {F S : Type 0} ⦃f : F64 F⦄ ⦃h : H3 F⦄ ⦃c : Codec⦄ ⦃b : StorageBackend F S⦄
    ⦃t : Tasks F S⦄ where
  -- The snapshot task, after any number of ticks, changes the engine by snapshots alone, next to what the
  -- other tasks do.
  pub snapshot_rounds-IsLogged :
      (n : ℕ) (s : ApiState F S)
      → ((k : ℕ) (o : ApiState F S) → IsLogged o.dispatch (t.others k o).dispatch)
      → IsLogged s.dispatch (snapshot_rounds n s).dispatch
  unfolding snapshot_rounds snapshot_round acquire
  snapshot_rounds-IsLogged zero s others = unchanged s.dispatch
  snapshot_rounds-IsLogged (suc n) s others =
      let held = acquire s in
      let one =
        IsLogged-and s.dispatch held.dispatch (snapshot_round s).dispatch
          (others s.locks (record s { locks = s.locks + 1 })) (one_snapshot held.dispatch) in
      IsLogged-and s.dispatch (snapshot_round s).dispatch _ one
        (snapshot_rounds-IsLogged n (snapshot_round s) others)
