-- ===== src/Api/Invariants/Handling.antt =====
-- rust/crates/spatiad-api/src/lib.rs: predicates on the service that the messages of a driver keep.
use spatiad.Base.{ℕ, Bool, Option, none, some, Result, ok, err, nat_eq}
use spatiad.Base.Text.{Text}
use spatiad.Platform.{F64, H3}
use spatiad.Types.{MatchResult}
use spatiad.Storage.{StorageBackend}
use spatiad.Core.EventKind.{Codec}
use spatiad.Core.State.{Engine}
use spatiad.Dispatch.{DispatchError, OfferResponseUpdate, handle_offer_response}
use spatiad.Dispatch.Run.{Step}
use spatiad.Ws.{DriverInbound, DriverOutbound, MessageCodec}
use spatiad.Api.State.{ApiState, Tasks, acquire}
use spatiad.Api.Sessions.{Message, Session, send_outbound, notify_new_offers}
use spatiad.Api.Handlers.{with_dispatch}
use spatiad.Api.Messages.{
  with_shared, flush_expired_offers, record_failure, report_to, report_match, announce, announced,
  answered, respond_to_offer, handle_inbound, handle_driver_message,
}
use spatiad.Api.Webhook.{WebhookPort, send_text, send_match_webhook}
use spatiad.Api.Invariants.{
  IsKept, acquire-keeps, notify_competing_cancellations-keeps, notify_new_offers-keeps,
}
use spatiad.Api.Invariants.Sending.{
  send-shared, and_then-keeps, send_outbound-keeps, flush_expired_offers-keeps,
}

module _ {F S : Type 0} ⦃f : F64 F⦄ ⦃h : H3 F⦄ ⦃c : Codec⦄ ⦃b : StorageBackend F S⦄ ⦃t : Tasks F S⦄
    ⦃m : MessageCodec F⦄ ⦃p : WebhookPort⦄ (P : Engine F S → Type 0) (k : IsKept P) where
  send_text-keeps :
      (s : ApiState F S) (url : Text) (secret : Option Text) (timeout_ms : ℕ) (body : Option Text)
      → P s.dispatch
      → P (send_text s url secret timeout_ms body).0.dispatch
  unfolding send_text
  send_text-keeps s url secret timeout_ms none x = x
  send_text-keeps s url secret timeout_ms (some body) x = k.by_world s.dispatch _ x

  send_match_webhook-keeps :
      (s : ApiState F S) (url : Text) (secret : Option Text) (timeout_ms : ℕ) (result : MatchResult)
      → P s.dispatch
      → P (send_match_webhook s url secret timeout_ms result).0.dispatch
  unfolding send_match_webhook
  send_match_webhook-keeps s url secret timeout_ms result x =
      send_text-keeps s url secret timeout_ms _ x

  record_failure-keeps :
      (s : ApiState F S) (result : MatchResult) (r : Result (Unit {0}) (Unit {0}))
      → P s.dispatch
      → P (record_failure s result r).dispatch
  unfolding record_failure
  record_failure-keeps s result (ok _) x = x
  record_failure-keeps s result (err _) x =
      k.by_step (acquire s).dispatch _
        (Step.webhook_failed (acquire s).dispatch result.job_id result.offer_id)
        (acquire-keeps P k s x)

  report_to-keeps :
      (s : ApiState F S) (result : MatchResult) (url : Option Text)
      → P s.dispatch
      → P (report_to s result url).dispatch
  unfolding report_to
  report_to-keeps s result none x = x
  report_to-keeps s result (some url) x =
      let sent = send_match_webhook s url s.webhook_secret s.webhook_timeout_ms result in
      record_failure-keeps sent.0 result sent.1.1
        (send_match_webhook-keeps s url s.webhook_secret s.webhook_timeout_ms result x)

  report_match-keeps :
      (s : ApiState F S) (result : MatchResult) → P s.dispatch → P (report_match s result).dispatch
  unfolding report_match
  report_match-keeps s result x = report_to-keeps s result s.webhook_url x

  announced-keeps :
      (result : MatchResult) (s : Session F S)
      → P s.shared.dispatch
      → P (announced result s).0.shared.dispatch
  unfolding announced
  announced-keeps result s x =
      report_match-keeps _ result
        (notify_competing_cancellations-keeps P k s.shared result.job_id x)

  announce-keeps :
      (s : Session F S) (found : Option MatchResult)
      → P s.shared.dispatch
      → P (announce s found).0.shared.dispatch
  unfolding announce
  announce-keeps s none x = x
  announce-keeps s (some result) x =
      and_then-keeps P k (send_outbound s (DriverOutbound.matched result.offer_id result.job_id))
        (announced result) (announced-keeps result) (send_outbound-keeps P k s _ x)

  answered-keeps :
      (s : Session F S) (r : Engine F S × Result OfferResponseUpdate DispatchError)
      → P r.0
      → P (answered s r).0.shared.dispatch
  unfolding answered
  answered-keeps s (e, err _) x = x
  answered-keeps s (e, ok update) x =
      announce-keeps
        (with_shared s (notify_new_offers (with_dispatch s.shared e) update.new_offers))
        update.matched (notify_new_offers-keeps P k (with_dispatch s.shared e) update.new_offers x)

  respond_to_offer-keeps :
      (offer_id : ℕ) (accepted : Bool) (s : Session F S)
      → P s.shared.dispatch
      → P (respond_to_offer offer_id accepted s).0.shared.dispatch
  unfolding respond_to_offer
  respond_to_offer-keeps offer_id accepted s x =
      let shared = acquire s.shared in
      answered-keeps (with_shared s shared)
        (handle_offer_response shared.dispatch offer_id accepted)
        (k.by_step shared.dispatch _ (Step.respond shared.dispatch offer_id accepted)
          (acquire-keeps P k s.shared x))

  handle_inbound-keeps :
      (driver_id : ℕ) (s : Session F S) (received : Option (DriverInbound F))
      → P s.shared.dispatch
      → P (handle_inbound driver_id s received).0.shared.dispatch
  unfolding handle_inbound
  handle_inbound-keeps driver_id s none x = x
  handle_inbound-keeps driver_id s
        (some (DriverInbound.location category status latitude longitude _)) x =
      let shared = acquire s.shared in
      k.by_step shared.dispatch _
        (Step.upsert_location shared.dispatch driver_id category
          (record { latitude = latitude; longitude = longitude }) status)
        (acquire-keeps P k s.shared x)
  handle_inbound-keeps driver_id s (some (DriverInbound.offer_response offer_id accepted)) x =
      and_then-keeps P k (flush_expired_offers driver_id s) (respond_to_offer offer_id accepted)
        (respond_to_offer-keeps offer_id accepted) (flush_expired_offers-keeps P k driver_id s x)

  pub handle_driver_message-keeps :
      (driver_id : ℕ) (s : Session F S) (received : Message)
      → P s.shared.dispatch
      → P (handle_driver_message driver_id s received).0.shared.dispatch
  unfolding handle_driver_message
  handle_driver_message-keeps driver_id s (Message.text json) x =
      handle_inbound-keeps driver_id s (m.inbound_from_json json) x
  handle_driver_message-keeps driver_id s Message.close x = x
  handle_driver_message-keeps driver_id s (Message.ping payload) x =
      rw (send-shared s (Message.pong payload)) x
  handle_driver_message-keeps driver_id s (Message.binary _) x = x
  handle_driver_message-keeps driver_id s (Message.pong _) x = x
