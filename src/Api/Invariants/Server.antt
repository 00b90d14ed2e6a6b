-- ===== src/Api/Invariants/Server.antt =====
-- rust/crates/spatiad-api/src/lib.rs: runs of the whole server.
use spatiad.Base.{ℕ, ◌≡◌, false, List, any, nat_eq}
use spatiad.Base.HashMap
use spatiad.Platform.{F64, H3, Rfc3339}
use spatiad.Storage.{StorageBackend}
use spatiad.Core.EventKind.{Codec}
use spatiad.Core.State.{Engine}
use spatiad.Core.Search.{is_accepted_for}
use spatiad.Core.Offers.Exclusive.{IsExclusive}
use spatiad.Dispatch.Run.{Step-IsExclusive}
use spatiad.Ws.{MessageCodec}
use spatiad.Api.State.{ApiState, Tasks}
use spatiad.Api.Authorization.{HeaderMap}
use spatiad.Api.Http.{OfferRequest, DriverUpsertRequest, JobEventsQuery}
use spatiad.Api.Validation.{Unicode}
use spatiad.Api.Handlers.{
  dispatch_offer, upsert_driver, cancel_offer, cancel_job, dispatch_job_status,
}
use spatiad.Api.Events.{dispatch_job_events}
use spatiad.Api.Sessions.{WebSocket}
use spatiad.Api.Webhook.{WebhookPort}
use spatiad.Api.Connections.{Wake, driver_ws, handle_driver_session}
use spatiad.Api.Background.{expire_offers_round, expire_drivers_round}
use spatiad.Api.Invariants.{IsKept}
use spatiad.Api.Invariants.Serving.{handle_driver_session-keeps}
use spatiad.Api.Invariants.Ticks.{expire_offers_round-keeps, expire_drivers_round-keeps}
use spatiad.Api.Invariants.Requests.{
  driver_ws-keeps, cancel_offer-keeps, cancel_job-keeps, dispatch_job_status-keeps,
  dispatch_job_events-keeps, submitted_in, dispatch_offer-keeps, upsert_driver-keeps,
}

module _ {F S : Type 0} ⦃f : F64 F⦄ ⦃h : H3 F⦄ ⦃c : Codec⦄ ⦃b : StorageBackend F S⦄ ⦃t : Tasks F S⦄
    ⦃u : Unicode⦄ ⦃r : Rfc3339⦄ ⦃m : MessageCodec F⦄ ⦃p : WebhookPort⦄ where
  -- What one task does from its start to its end, with the other tasks between its locks. A
  -- request for an offer is of a job that has no accepted offer when the service is called.
  pub data TaskRun : ApiState F S → ApiState F S → Type 0 where
    offer_request :
        (s : ApiState F S) (headers : HeaderMap) (payload : OfferRequest F)
        → any
            (is_accepted_for payload.job_id)
            (HashMap.values (submitted_in s headers).dispatch.offers)
          ≡ false
        → TaskRun s (dispatch_offer s headers payload).0
    upsert_request :
        (s : ApiState F S) (headers : HeaderMap) (payload : DriverUpsertRequest F)
        → TaskRun s (upsert_driver s headers payload).0
    cancel_offer_request :
        (s : ApiState F S) (headers : HeaderMap) (offer_id : ℕ)
        → TaskRun s (cancel_offer s headers offer_id).0
    cancel_job_request :
        (s : ApiState F S) (headers : HeaderMap) (job_id : ℕ)
        → TaskRun s (cancel_job s headers job_id).0
    status_request :
        (s : ApiState F S) (headers : HeaderMap) (job_id : ℕ)
        → TaskRun s (dispatch_job_status s headers job_id).0
    events_request :
        (s : ApiState F S) (headers : HeaderMap) (job_id : ℕ) (query : JobEventsQuery)
        → TaskRun s (dispatch_job_events s headers job_id query).0
    connect_request :
        (s : ApiState F S) (driver_id : ℕ) (headers : HeaderMap)
        → TaskRun s (driver_ws s driver_id headers).0
    driver_session :
        (s : ApiState F S) (driver_id : ℕ) (socket : WebSocket) (wakes : List Wake)
        → TaskRun s (handle_driver_session s driver_id socket wakes).shared
    offers_tick : (s : ApiState F S) → TaskRun s (expire_offers_round s)
    drivers_tick : (s : ApiState F S) → TaskRun s (expire_drivers_round s)

  pub TaskRun-keeps :
      (P : Engine F S → Type 0) (k : IsKept P) (s s' : ApiState F S)
      → TaskRun s s'
      → P s.dispatch
      → P s'.dispatch
  TaskRun-keeps P k _ _ (offer_request s headers payload free) x =
      dispatch_offer-keeps P k s headers payload free x
  TaskRun-keeps P k _ _ (upsert_request s headers payload) x =
      upsert_driver-keeps P k s headers payload x
  TaskRun-keeps P k _ _ (cancel_offer_request s headers offer_id) x =
      cancel_offer-keeps P k s headers offer_id x
  TaskRun-keeps P k _ _ (cancel_job_request s headers job_id) x =
      cancel_job-keeps P k s headers job_id x
  TaskRun-keeps P k _ _ (status_request s headers job_id) x =
      dispatch_job_status-keeps P k s headers job_id x
  TaskRun-keeps P k _ _ (events_request s headers job_id query) x =
      dispatch_job_events-keeps P k s headers job_id query x
  TaskRun-keeps P k _ _ (connect_request s driver_id headers) x =
      driver_ws-keeps P k s driver_id headers x
  TaskRun-keeps P k _ _ (driver_session s driver_id socket wakes) x =
      handle_driver_session-keeps P k s driver_id socket wakes x
  TaskRun-keeps P k _ _ (offers_tick s) x = expire_offers_round-keeps P k s x
  TaskRun-keeps P k _ _ (drivers_tick s) x = expire_drivers_round-keeps P k s x

  -- If the other tasks keep the rule of one match between the locks of a task, then so does the
  -- task: an HTTP request, a whole session of a driver with whatever it sends and whichever sends
  -- fail, or a tick in the background. A request for an offer of a job that is already matched when
  -- the service is called is excluded.
  pub TaskRun-IsExclusive :
      (s s' : ApiState F S)
      → ((n : ℕ) (o : ApiState F S)
          → IsExclusive o.dispatch.offers
          → IsExclusive (t.others n o).dispatch.offers)
      → TaskRun s s'
      → IsExclusive s.dispatch.offers
      → IsExclusive s'.dispatch.offers
  TaskRun-IsExclusive s s' others run x =
      let kept : IsKept (λ e. IsExclusive e.offers) = record {
        by_step = λ e e' step y. Step-IsExclusive step y;
        by_world = λ e w y. y;
        by_others = others;
      } in
      TaskRun-keeps (λ e. IsExclusive e.offers) kept s s' run x
