-- ===== src/Api/Connections.antt =====
-- rust/crates/spatiad-api/src/lib.rs: connecting a driver, and the task that serves it.
pub mod Takeover
pub mod Apart
pub mod Activity
pub mod Orphans
pub mod Replay
use spatiad.Base.{
  ℕ, suc, ◌+◌, ◌*◌, Bool, true, false, Option, none, some, List, [], ◌∷◌, Result, ok, err, nat_eq,
  nat_beq, any, is_empty, ◌&&◌, if◌then◌else◌,
}
use spatiad.Base.HashMap
use spatiad.Platform.{F64, H3, seconds}
use spatiad.Storage.{StorageBackend}
use spatiad.Core.EventKind.{Codec}
use spatiad.Core.State.{Engine}
use spatiad.Core.Mutations.{expire_stale_drivers}
use spatiad.Dispatch.{ExpirationUpdate, expire_pending_offers_global}
use spatiad.Ws.{DriverOutbound, MessageCodec}
use spatiad.Api.State.{ApiState, Tasks, acquire, now, after_clock}
use spatiad.Api.Handlers.{with_dispatch}
use spatiad.Api.RateLimiter.{allow}
use spatiad.Api.Authorization.{HeaderMap, is_driver_authorized}
use spatiad.Api.Http.{Response, status_response, unauthorized, too_many_requests}
use spatiad.Api.Sessions.{
  Message, WebSocket, Session, Outcome, and_then, deliver_expired, notify_new_offers, send_outbound,
}
use spatiad.Api.Messages.{
  with_shared, flush_expired_offers, replay_pending_offers, handle_driver_message,
}
use spatiad.Api.Webhook.{WebhookPort}

module _ {F S : Type 0} ⦃t : Tasks F S⦄ where
  unfoldable pub allowed : ApiState F S → ℕ → ApiState F S × Bool
  allowed s driver_id =
      let (guard, admitted) = allow s.ws_reconnect_guard (now s) driver_id in
      (record (after_clock s) { ws_reconnect_guard = guard }, admitted)

  unfoldable pub allow_driver_ws_connect : ApiState F S → ℕ → ApiState F S × Bool
  unfolding allowed
  allow_driver_ws_connect s driver_id = allowed (acquire s) driver_id

  abbrev connected : ApiState F S × Bool → ApiState F S × Option Response
  connected (s, admitted) = (s, if admitted then none else some (status_response too_many_requests))

  -- The answer to a request to connect: `none` is the upgrade to a WebSocket.
  unfoldable pub driver_ws : ApiState F S → ℕ → HeaderMap → ApiState F S × Option Response
  driver_ws s driver_id headers =
      if is_driver_authorized s headers
      then connected (allow_driver_ws_connect s driver_id)
      else (s, some (status_response unauthorized))

-- What `session_rx.recv()` finds: a message, no message yet, or that no sender is left.
pub data Received (F : Type 0) : Type 0 where
  message : DriverOutbound F → Received F
  waiting closed : Received F

abbrev from_queue : {F : Type 0} → Bool → List (DriverOutbound F) → Received F
from_queue sender (first ∷ rest) = Received.message first
from_queue true [] = Received.waiting
from_queue false [] = Received.closed

abbrev tail : {A : Type 0} → List A → List A
tail [] = []
tail (_ ∷ rest) = rest

module _ {F S : Type 0} where
  -- The sender of a channel lives as long as the entry of the sessions that holds it.
  abbrev pub has_sender : ApiState F S → ℕ → Bool
  has_sender s channel = any (λ c. nat_beq c channel) (HashMap.values s.sessions)

  unfoldable pub recv : ApiState F S → ℕ → Received F
  recv s channel = elim (HashMap.get channel s.channels) [
    | none ↦ Received.closed
    | some queue ↦ from_queue (has_sender s channel) queue
  ]

  abbrev pub after_recv : ApiState F S → ℕ → ApiState F S
  after_recv s channel = record s { channels = HashMap.adjust channel tail s.channels }

  -- A new channel, and its sender as that of the driver.
  unfoldable pub register : ApiState F S → ℕ → ApiState F S
  register s driver_id = record s {
    sessions = HashMap.insert driver_id s.next_channel s.sessions;
    channels = HashMap.insert s.next_channel [] s.channels;
    next_channel = s.next_channel + 1;
  }

  -- `sessions.remove(&driver_id)`, and the receiver is dropped at the end of the task.
  unfoldable pub unregister : ApiState F S → ℕ → ℕ → ApiState F S
  unregister s driver_id channel = record s {
    sessions = HashMap.remove driver_id s.sessions;
    channels = HashMap.remove channel s.channels;
  }

-- What wakes the `select!` of a session. A message of the socket may be an error, and none is its
-- end.
pub data Wake : Type 0 where
  ticked outbound : Wake
  inbound : Option (Result Message (Unit {0})) → Wake

module _ {F S : Type 0} ⦃f : F64 F⦄ ⦃h : H3 F⦄ ⦃c : Codec⦄ ⦃b : StorageBackend F S⦄
    ⦃m : MessageCodec F⦄ ⦃t : Tasks F S⦄ ⦃p : WebhookPort⦄ where
  unfoldable pub on_received : Session F S → ℕ → Received F → Outcome F S
  on_received s channel (Received.message first) =
      send_outbound (with_shared s (after_recv s.shared channel)) first
  on_received s channel Received.waiting = (s, ok tt)
  on_received s channel Received.closed = (s, err tt)

  unfoldable pub on_inbound : ℕ → Session F S → Option (Result Message (Unit {0})) → Outcome F S
  on_inbound driver_id s none = (s, err tt)
  on_inbound driver_id s (some (err _)) = (s, err tt)
  on_inbound driver_id s (some (ok received)) = handle_driver_message driver_id s received

  -- One round of the loop. An error is the `break`.
  unfoldable pub session_round : ℕ → ℕ → Session F S → Wake → Outcome F S
  unfolding on_received on_inbound
  session_round driver_id channel s Wake.ticked = flush_expired_offers driver_id s
  session_round driver_id channel s Wake.outbound = on_received s channel (recv s.shared channel)
  session_round driver_id channel s (Wake.inbound received) = on_inbound driver_id s received

  unfoldable pub close_session : ℕ → ℕ → Session F S → Session F S
  close_session driver_id channel s =
      with_shared s (unregister (acquire s.shared) driver_id channel)

  -- The loop, for the wakes of a whole session; a session whose wakes end is closed too.
  unfoldable pub session_loop : ℕ → ℕ → List Wake → Outcome F S → Session F S
  unfolding close_session
  session_loop driver_id channel wakes (s, err _) = close_session driver_id channel s
  session_loop driver_id channel [] (s, ok _) = close_session driver_id channel s
  session_loop driver_id channel (wake ∷ wakes) (s, ok _) =
      session_loop driver_id channel wakes (session_round driver_id channel s wake)

  unfoldable pub handle_driver_session : ApiState F S → ℕ → WebSocket → List Wake → Session F S
  handle_driver_session s driver_id socket wakes =
      let s' = acquire s in
      session_loop driver_id s'.next_channel wakes (
        replay_pending_offers driver_id
          (record { shared = register s' driver_id; socket = socket }))
