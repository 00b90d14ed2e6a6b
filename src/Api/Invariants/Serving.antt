-- ===== src/Api/Invariants/Serving.antt =====
-- rust/crates/spatiad-api/src/lib.rs: predicates on the service that the task of a driver keeps.
use spatiad.Base.{ℕ, Option, none, some, List, [], ◌∷◌, Result, ok, err, nat_eq}
use spatiad.Platform.{F64, H3}
use spatiad.Storage.{StorageBackend}
use spatiad.Core.EventKind.{Codec}
use spatiad.Core.State.{Engine}
use spatiad.Ws.{MessageCodec}
use spatiad.Api.State.{ApiState, Tasks}
use spatiad.Api.Sessions.{Message, WebSocket, Session, Outcome}
use spatiad.Api.Messages.{with_shared}
use spatiad.Api.Webhook.{WebhookPort}
use spatiad.Api.Connections.{
  Received, Wake, recv, after_recv, register, unregister, on_received, on_inbound, session_round,
  close_session, session_loop, handle_driver_session,
}
use spatiad.Api.Invariants.{IsKept, acquire-keeps}
use spatiad.Api.Invariants.Sending.{
  send_outbound-keeps, flush_expired_offers-keeps, replay_pending_offers-keeps,
}
use spatiad.Api.Invariants.Handling.{handle_driver_message-keeps}

module _ {F S : Type 0} ⦃f : F64 F⦄ ⦃h : H3 F⦄ ⦃c : Codec⦄ ⦃b : StorageBackend F S⦄ ⦃t : Tasks F S⦄
    ⦃m : MessageCodec F⦄ ⦃p : WebhookPort⦄ (P : Engine F S → Type 0) (k : IsKept P) where
  on_received-keeps :
      (s : Session F S) (channel : ℕ) (received : Received F)
      → P s.shared.dispatch
      → P (on_received s channel received).0.shared.dispatch
  unfolding on_received
  on_received-keeps s channel (Received.message first) x =
      send_outbound-keeps P k (with_shared s (after_recv s.shared channel)) first x
  on_received-keeps s channel Received.waiting x = x
  on_received-keeps s channel Received.closed x = x

  on_inbound-keeps :
      (driver_id : ℕ) (s : Session F S) (received : Option (Result Message (Unit {0})))
      → P s.shared.dispatch
      → P (on_inbound driver_id s received).0.shared.dispatch
  unfolding on_inbound
  on_inbound-keeps driver_id s none x = x
  on_inbound-keeps driver_id s (some (err _)) x = x
  on_inbound-keeps driver_id s (some (ok received)) x =
      handle_driver_message-keeps P k driver_id s received x

  session_round-keeps :
      (driver_id channel : ℕ) (s : Session F S) (wake : Wake)
      → P s.shared.dispatch
      → P (session_round driver_id channel s wake).0.shared.dispatch
  unfolding session_round
  session_round-keeps driver_id channel s Wake.ticked x =
      flush_expired_offers-keeps P k driver_id s x
  session_round-keeps driver_id channel s Wake.outbound x =
      on_received-keeps s channel (recv s.shared channel) x
  session_round-keeps driver_id channel s (Wake.inbound received) x =
      on_inbound-keeps driver_id s received x

  close_session-keeps :
      (driver_id channel : ℕ) (s : Session F S)
      → P s.shared.dispatch
      → P (close_session driver_id channel s).shared.dispatch
  unfolding close_session unregister
  close_session-keeps driver_id channel s x = acquire-keeps P k s.shared x

  session_loop-keeps :
      (driver_id channel : ℕ) (wakes : List Wake) (o : Outcome F S)
      → P o.0.shared.dispatch
      → P (session_loop driver_id channel wakes o).shared.dispatch
  unfolding session_loop
  session_loop-keeps driver_id channel wakes (s, err _) x =
      close_session-keeps driver_id channel s x
  session_loop-keeps driver_id channel [] (s, ok _) x = close_session-keeps driver_id channel s x
  session_loop-keeps driver_id channel (wake ∷ wakes) (s, ok _) x =
      session_loop-keeps driver_id channel wakes (session_round driver_id channel s wake)
        (session_round-keeps driver_id channel s wake x)

  -- A whole session of a driver keeps every predicate on the service that single calls, the clock
  -- and the other tasks keep, whatever the driver sends, whatever sends fail, whatever the webhook
  -- answers, and whatever the other tasks do between the locks.
  pub handle_driver_session-keeps :
      (s : ApiState F S) (driver_id : ℕ) (socket : WebSocket) (wakes : List Wake)
      → P s.dispatch
      → P (handle_driver_session s driver_id socket wakes).shared.dispatch
  unfolding handle_driver_session register
  handle_driver_session-keeps s driver_id socket wakes x =
      session_loop-keeps driver_id _ wakes _
        (replay_pending_offers-keeps P k driver_id _ (acquire-keeps P k s x))
