-- ===== src/Api/Messages.antt =====
-- rust/crates/spatiad-api/src/lib.rs: the task that serves a connected driver.
use spatiad.Base.{ℕ, Bool, Option, none, some, List, map, Result, ok, err, nat_eq}
use spatiad.Base.Text.{Text}
use spatiad.Platform.{F64, H3}
use spatiad.Types.{MatchResult}
use spatiad.Storage.{StorageBackend}
use spatiad.Core.EventKind.{Codec}
use spatiad.Core.State.{Engine, PendingDriverOffer, ExpiredOffer}
use spatiad.Core.Mutations.{upsert_driver_location}
use spatiad.Dispatch.{
  DispatchError, OfferResponseUpdate, ExpirationUpdate, expire_pending_offers_for_driver,
  handle_offer_response,
}
use spatiad.Dispatch.Views.{pending_offers_for_driver, record_webhook_delivery_failed}
use spatiad.Ws.{DriverInbound, DriverOutbound, MessageCodec}
use spatiad.Api.State.{ApiState, Tasks, acquire}
use spatiad.Api.Handlers.{with_dispatch}
use spatiad.Api.Sessions.{
  Message, Session, Outcome, and_then, send, offer_message, notify_competing_cancellations,
  notify_new_offers, send_outbound, send_all,
}
use spatiad.Api.Webhook.{WebhookPort, send_match_webhook}

-- Between two sends only shared state changes.
abbrev pub with_shared : {F S : Type 0} → Session F S → ApiState F S → Session F S
with_shared s shared = record s { shared = shared }

abbrev pub expired_message : {F : Type 0} → ExpiredOffer → DriverOutbound F
expired_message item = DriverOutbound.offer_expired item.offer_id

module _ {F S : Type 0} ⦃f : F64 F⦄ ⦃h : H3 F⦄ ⦃c : Codec⦄ ⦃b : StorageBackend F S⦄
    ⦃m : MessageCodec F⦄ ⦃t : Tasks F S⦄ where
  -- `flush_expired_offers` after the call of the service.
  unfoldable pub flushed : Session F S → Engine F S × ExpirationUpdate → Outcome F S
  flushed s (e, update) =
      and_then
        (send_all (with_shared s (with_dispatch s.shared e)) (map expired_message update.expired))
        λ s'. (with_shared s' (notify_new_offers s'.shared update.new_offers), ok tt)

  unfoldable pub flush_expired_offers : ℕ → Session F S → Outcome F S
  unfolding flushed
  flush_expired_offers driver_id s =
      let shared = acquire s.shared in
      flushed (with_shared s shared) (expire_pending_offers_for_driver shared.dispatch driver_id)

  -- `replay_pending_offers` after the flush.
  unfoldable pub replayed : Session F S → Engine F S × List (PendingDriverOffer F) → Outcome F S
  replayed s (e, pending) =
      send_all (with_shared s (with_dispatch s.shared e)) (map offer_message pending)

  unfoldable pub replay_listed : ℕ → Session F S → Outcome F S
  unfolding replayed
  replay_listed driver_id s =
      let shared = acquire s.shared in
      replayed (with_shared s shared) (pending_offers_for_driver shared.dispatch driver_id)

  unfoldable pub replay_pending_offers : ℕ → Session F S → Outcome F S
  replay_pending_offers driver_id s =
      and_then (flush_expired_offers driver_id s) (replay_listed driver_id)

module _ {F S : Type 0} ⦃f : F64 F⦄ ⦃h : H3 F⦄ ⦃c : Codec⦄ ⦃b : StorageBackend F S⦄
    ⦃m : MessageCodec F⦄ ⦃t : Tasks F S⦄ ⦃p : WebhookPort⦄ where
  -- A delivery that failed is recorded under a lock of its own.
  unfoldable pub record_failure :
      ApiState F S → MatchResult → Result (Unit {0}) (Unit {0}) → ApiState F S
  record_failure s result (ok _) = s
  record_failure s result (err _) =
      let s' = acquire s in
      with_dispatch s' (record_webhook_delivery_failed s'.dispatch result.job_id result.offer_id)

  -- `if let Some(webhook_url) = &state.webhook_url { .. }`.
  unfoldable pub report_to : ApiState F S → MatchResult → Option Text → ApiState F S
  report_to s result none = s
  report_to s result (some url) =
      let sent = send_match_webhook s url s.webhook_secret s.webhook_timeout_ms result in
      record_failure sent.0 result sent.1.1

  unfoldable pub report_match : ApiState F S → MatchResult → ApiState F S
  report_match s result = report_to s result s.webhook_url

  -- What follows the message to the driver.
  unfoldable pub announced : MatchResult → Session F S → Outcome F S
  announced result s = (
    with_shared s (report_match (notify_competing_cancellations s.shared result.job_id) result),
    ok tt,
  )

  -- `if let Some(result) = update.matched { .. }`.
  unfoldable pub announce : Session F S → Option MatchResult → Outcome F S
  announce s none = (s, ok tt)
  announce s (some result) =
      and_then (send_outbound s (DriverOutbound.matched result.offer_id result.job_id))
        (announced result)

  -- What follows the call of the service.
  unfoldable pub answered :
      Session F S → Engine F S × Result OfferResponseUpdate DispatchError → Outcome F S
  answered s (e, err _) = (with_shared s (with_dispatch s.shared e), err tt)
  answered s (e, ok update) =
      announce (with_shared s (notify_new_offers (with_dispatch s.shared e) update.new_offers))
        update.matched

  unfoldable pub respond_to_offer : ℕ → Bool → Session F S → Outcome F S
  unfolding answered
  respond_to_offer offer_id accepted s =
      let shared = acquire s.shared in
      answered (with_shared s shared) (handle_offer_response shared.dispatch offer_id accepted)

  unfoldable pub handle_inbound : ℕ → Session F S → Option (DriverInbound F) → Outcome F S
  unfolding respond_to_offer
  handle_inbound driver_id s none = (s, err tt)
  handle_inbound driver_id s (some (DriverInbound.location category status latitude longitude _)) =
      let shared = acquire s.shared in
      (
        with_shared s (
            with_dispatch shared (
              upsert_driver_location shared.dispatch driver_id category
                (record { latitude = latitude; longitude = longitude }) status)),
        ok tt,
      )
  handle_inbound driver_id s (some (DriverInbound.offer_response offer_id accepted)) =
      and_then (flush_expired_offers driver_id s) (respond_to_offer offer_id accepted)

  unfoldable pub handle_driver_message : ℕ → Session F S → Message → Outcome F S
  handle_driver_message driver_id s (Message.text json) =
      handle_inbound driver_id s (m.inbound_from_json json)
  handle_driver_message driver_id s Message.close = (s, err tt)
  handle_driver_message driver_id s (Message.ping payload) = send s (Message.pong payload)
  handle_driver_message driver_id s (Message.binary _) = (s, ok tt)
  handle_driver_message driver_id s (Message.pong _) = (s, ok tt)
