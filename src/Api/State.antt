-- ===== src/Api/State.antt =====
-- rust/crates/spatiad-api/src/lib.rs: `ApiState`, what all tasks of the server share, and the locks.
use spatiad.Base.{ℕ, ◌+◌, Option, List}
use spatiad.Base.Text.{Text}
use spatiad.Base.HashMap.{HashMap}
use spatiad.Ws.{DriverOutbound}
use spatiad.Platform.{utc_now}
use spatiad.Core.State.{Engine}
use spatiad.Core.Mutations.{tick}
use spatiad.Api.RateLimiter.{SlidingWindowRateLimiter, WsReconnectGuard}

-- The fields of the source. A `DispatchService` is its engine, and the sender of a session is the
-- number of its channel. `channels` holds what is sent and not yet received, oldest first,
-- `next_channel` numbers the channels, and `locks` counts the locks that were taken.
pub record ApiState (F S : Type 0) : Type 0 where
  pub dispatch : Engine F S
  pub webhook_url : Option Text
  pub webhook_secret : Option Text
  pub webhook_timeout_ms : ℕ
  pub driver_token : Option Text
  pub dispatcher_token : Option Text
  pub driver_ttl_secs : Option ℕ
  pub dispatch_rate_limiter : SlidingWindowRateLimiter
  pub ws_reconnect_guard : WsReconnectGuard
  pub sessions : HashMap ℕ ℕ
  pub channels : HashMap ℕ (List (DriverOutbound F))
  pub next_channel : ℕ
  pub locks : ℕ

-- What the other tasks do to the shared state before the n-th lock is granted. Between two locks of
-- a task any of them may run.
pub record Tasks (F S : Type 0) : Type 0 where
  pub others : ℕ → ApiState F S → ApiState F S

module _ {F S : Type 0} where
  -- `mutex.lock().await`: the state that the holder of the lock finds.
  unfoldable pub acquire : ⦃t : Tasks F S⦄ → ApiState F S → ApiState F S
  acquire ⦃t⦄ s = t.others s.locks (record s { locks = s.locks + 1 })

  -- One reading of the clock outside the engine.
  abbrev pub now : ApiState F S → ℕ
  now s = utc_now s.dispatch.world

  abbrev pub after_clock : ApiState F S → ApiState F S
  after_clock s = record s { dispatch = tick s.dispatch }
