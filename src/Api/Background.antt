-- ===== src/Api/Background.antt =====
-- rust/crates/spatiad-api/src/lib.rs: the background tasks.
use spatiad.Base.{ℕ, Option, none, some, nat_eq, is_empty, ◌&&◌, if◌then◌else◌}
use spatiad.Platform.{F64, H3, seconds}
use spatiad.Storage.{StorageBackend}
use spatiad.Core.EventKind.{Codec}
use spatiad.Core.State.{Engine}
use spatiad.Core.Mutations.{expire_stale_drivers}
use spatiad.Dispatch.{ExpirationUpdate, expire_pending_offers_global}
use spatiad.Api.State.{ApiState, Tasks, acquire}
use spatiad.Api.Handlers.{with_dispatch}
use spatiad.Api.Sessions.{deliver_expired, notify_new_offers}

module _ {F S : Type 0} ⦃f : F64 F⦄ ⦃h : H3 F⦄ ⦃c : Codec⦄ ⦃b : StorageBackend F S⦄
    ⦃t : Tasks F S⦄ where
  unfoldable pub expired_globally : ApiState F S → Engine F S × ExpirationUpdate → ApiState F S
  expired_globally s (e, update) =
      let s' = with_dispatch s e in
      if is_empty update.expired && is_empty update.new_offers
      then s'
      else notify_new_offers (deliver_expired (acquire s') update.expired) update.new_offers

  -- One round of the task that expires offers.
  unfoldable pub expire_offers_round : ApiState F S → ApiState F S
  unfolding expired_globally
  expire_offers_round s =
      let s' = acquire s in expired_globally s' (expire_pending_offers_global s'.dispatch)

  unfoldable pub expire_stale : ApiState F S → Option ℕ → ApiState F S
  expire_stale s none = s
  expire_stale s (some ttl_secs) =
      let s' = acquire s in with_dispatch s' (expire_stale_drivers s'.dispatch (seconds ttl_secs)).0

  -- One round of the task that removes stale drivers, if there is one.
  unfoldable pub expire_drivers_round : ApiState F S → ApiState F S
  expire_drivers_round s = expire_stale s s.driver_ttl_secs
