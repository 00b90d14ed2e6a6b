-- ===== src/Api/Invariants/Ticks.antt =====
-- rust/crates/spatiad-api/src/lib.rs: predicates on the service that the background tasks keep.
use spatiad.Base.{ℕ, Option, none, some, nat_eq, is_empty, ◌&&◌, Bool-cases, inl, inr}
use spatiad.Platform.{F64, H3, seconds}
use spatiad.Storage.{StorageBackend}
use spatiad.Core.EventKind.{Codec}
use spatiad.Core.State.{Engine}
use spatiad.Dispatch.{ExpirationUpdate}
use spatiad.Dispatch.Run.{Step}
use spatiad.Api.State.{ApiState, Tasks, acquire}
use spatiad.Api.Handlers.{with_dispatch}
use spatiad.Api.Background.{
  expired_globally, expire_stale, expire_offers_round, expire_drivers_round,
}
use spatiad.Api.Invariants.{
  IsKept, acquire-keeps, deliver_expired-dispatch, notify_new_offers-keeps,
}

module _ {F S : Type 0} ⦃f : F64 F⦄ ⦃h : H3 F⦄ ⦃c : Codec⦄ ⦃b : StorageBackend F S⦄ ⦃t : Tasks F S⦄
    (P : Engine F S → Type 0) (k : IsKept P) where
  expired_globally-keeps :
      (s : ApiState F S) (r : Engine F S × ExpirationUpdate)
      → P r.0
      → P (expired_globally s r).dispatch
  unfolding expired_globally
  expired_globally-keeps s (e, update) x =
      elim (Bool-cases (is_empty update.expired && is_empty update.new_offers)) [
        | inl q ↦ rw q x
        | inr q ↦ rw q (
            notify_new_offers-keeps P k _ update.new_offers (
              rw (deliver_expired-dispatch (acquire (with_dispatch s e)) update.expired)
                (acquire-keeps P k (with_dispatch s e) x)))
      ]

  pub expire_offers_round-keeps :
      (s : ApiState F S) → P s.dispatch → P (expire_offers_round s).dispatch
  unfolding expire_offers_round
  expire_offers_round-keeps s x = expired_globally-keeps (acquire s) _ (
      k.by_step (acquire s).dispatch _ (Step.expire_global (acquire s).dispatch)
        (acquire-keeps P k s x))

  expire_stale-keeps :
      (s : ApiState F S) (ttl_secs : Option ℕ) → P s.dispatch → P (expire_stale s ttl_secs).dispatch
  unfolding expire_stale
  expire_stale-keeps s none x = x
  expire_stale-keeps s (some ttl_secs) x =
      k.by_step (acquire s).dispatch _ (Step.stale (acquire s).dispatch (seconds ttl_secs))
        (acquire-keeps P k s x)

  pub expire_drivers_round-keeps :
      (s : ApiState F S) → P s.dispatch → P (expire_drivers_round s).dispatch
  unfolding expire_drivers_round
  expire_drivers_round-keeps s x = expire_stale-keeps s s.driver_ttl_secs x
