-- ===== src/Api/Invariants/Requests.antt =====
-- rust/crates/spatiad-api/src/lib.rs: predicates on the service that the requests keep.
use spatiad.Base.{ℕ, ◌≡◌, false, Result, ok, err, nat_eq, any, Bool-cases, inl, inr}
use spatiad.Base.Text.{Text, codes}
use spatiad.Base.HashMap
use spatiad.Platform.{F64, H3, Rfc3339}
use spatiad.Storage.{StorageBackend}
use spatiad.Core.EventKind.{Codec}
use spatiad.Core.State.{Engine}
use spatiad.Core.Search.{is_accepted_for}
use spatiad.Dispatch.Run.{Step}
use spatiad.Api.State.{ApiState, Tasks, acquire, now, after_clock}
use spatiad.Api.Authorization.{HeaderMap, is_dispatcher_authorized, is_driver_authorized}
use spatiad.Api.RateLimiter.{RateLimitSnapshot}
use spatiad.Api.Http.{OfferRequest, DriverUpsertRequest, JobEventsQuery, Response}
use spatiad.Api.Limits.{
  checked, check_dispatch_request, when_admitted, rate_limited_status_response,
  rate_limited_json_response,
}
use spatiad.Api.Validation.{Unicode}
use spatiad.Api.Handlers.{
  validate_offer, validate_upsert, job_request, when_authorized, when_valid, submit, dispatch_offer,
  upsert_driver, located, cancel_offer, offer_cancelled, cancel_job, job_cancelled,
  dispatch_job_status, status_of,
}
use spatiad.Api.Events.{Paging, parse_query, answer_events, dispatch_job_events}
use spatiad.Api.Connections.{allowed, allow_driver_ws_connect, driver_ws}
use spatiad.Api.Invariants.{IsKept, acquire-keeps}

module _ {F S : Type 0} ⦃t : Tasks F S⦄ where
  -- The state in which `dispatch_offer` calls the service.
  abbrev pub submitted_in : ApiState F S → HeaderMap → ApiState F S
  submitted_in s headers = acquire (check_dispatch_request s headers (codes "dispatch_offer")).0

module _ {F S : Type 0} ⦃f : F64 F⦄ ⦃h : H3 F⦄ ⦃c : Codec⦄ ⦃b : StorageBackend F S⦄ ⦃t : Tasks F S⦄
    (P : Engine F S → Type 0) (k : IsKept P) where
  -- A request of which only the answer or the shared state is looked at.
  when_authorized-keeps :
      (s : ApiState F S) (headers : HeaderMap) (rest : Unit {0} → ApiState F S × Response)
      → (P s.dispatch → P (rest tt).0.dispatch)
      → P s.dispatch
      → P (when_authorized s headers rest).0.dispatch
  when_authorized-keeps s headers rest keeps x =
      elim (Bool-cases (is_dispatcher_authorized s headers)) [
        | inl q ↦ rw q (keeps x)
        | inr q ↦ rw q x
      ]

  when_valid-keeps :
      (s : ApiState F S) (r : Result (Unit {0}) Response)
      (rest : Unit {0} → ApiState F S × Response)
      → (P s.dispatch → P (rest tt).0.dispatch)
      → P s.dispatch
      → P (when_valid s r rest).0.dispatch
  when_valid-keeps s (ok _) rest keeps x = keeps x
  when_valid-keeps s (err response) rest keeps x = x

  check_dispatch_request-keeps :
      (s : ApiState F S) (headers : HeaderMap) (endpoint : Text)
      → P s.dispatch
      → P (check_dispatch_request s headers endpoint).0.dispatch
  unfolding check_dispatch_request checked
  check_dispatch_request-keeps s headers endpoint x =
      k.by_world (acquire s).dispatch _ (acquire-keeps P k s x)

  when_admitted-keeps :
      (s : ApiState F S) (headers : HeaderMap) (endpoint : Text)
      (refuse : RateLimitSnapshot → Response) (rest : ApiState F S → ApiState F S × Response)
      → (P (check_dispatch_request s headers endpoint).0.dispatch
          → P (rest (check_dispatch_request s headers endpoint).0).0.dispatch)
      → P s.dispatch
      → P (when_admitted s headers endpoint refuse rest).0.dispatch
  unfolding when_admitted
  when_admitted-keeps s headers endpoint refuse rest keeps x =
      let checked = check_dispatch_request s headers endpoint in
      let y = check_dispatch_request-keeps s headers endpoint x in
      elim (Bool-cases checked.1.allowed) [ inl q ↦ rw q (keeps y) | inr q ↦ rw q y ]

  -- The guards of a handler, in the order of the code.
  gated-keeps :
      (s : ApiState F S) (headers : HeaderMap) (r : Result (Unit {0}) Response) (endpoint : Text)
      (refuse : RateLimitSnapshot → Response) (rest : ApiState F S → ApiState F S × Response)
      → (P (check_dispatch_request s headers endpoint).0.dispatch
          → P (rest (check_dispatch_request s headers endpoint).0).0.dispatch)
      → P s.dispatch
      → P
          (when_authorized s headers
            λ _. when_valid s r λ _. when_admitted s headers endpoint refuse rest).0.dispatch
  gated-keeps s headers r endpoint refuse rest keeps x =
      when_authorized-keeps s headers
        (λ _. when_valid s r λ _. when_admitted s headers endpoint refuse rest)
        (when_valid-keeps s r (λ _. when_admitted s headers endpoint refuse rest)
          (when_admitted-keeps s headers endpoint refuse rest keeps))
        x

  pub driver_ws-keeps :
      (s : ApiState F S) (driver_id : ℕ) (headers : HeaderMap)
      → P s.dispatch
      → P (driver_ws s driver_id headers).0.dispatch
  unfolding driver_ws allow_driver_ws_connect allowed
  driver_ws-keeps s driver_id headers x = elim (Bool-cases (is_driver_authorized s headers)) [
    | inl q ↦ rw q (k.by_world (acquire s).dispatch _ (acquire-keeps P k s x))
    | inr q ↦ rw q x
  ]

  pub cancel_offer-keeps :
      (s : ApiState F S) (headers : HeaderMap) (offer_id : ℕ)
      → P s.dispatch
      → P (cancel_offer s headers offer_id).0.dispatch
  unfolding cancel_offer offer_cancelled
  cancel_offer-keeps s headers offer_id x =
      let s' = (check_dispatch_request s headers (codes "dispatch_cancel_offer")).0 in
      gated-keeps s headers (ok tt) (codes "dispatch_cancel_offer") rate_limited_status_response
        (λ s'. offer_cancelled (acquire s') offer_id)
        (λ y. k.by_step _ _ (Step.withdraw (acquire s').dispatch offer_id) (acquire-keeps P k s' y))
        x

  pub cancel_job-keeps :
      (s : ApiState F S) (headers : HeaderMap) (job_id : ℕ)
      → P s.dispatch
      → P (cancel_job s headers job_id).0.dispatch
  unfolding cancel_job job_cancelled
  cancel_job-keeps s headers job_id x =
      let s' = (check_dispatch_request s headers (codes "dispatch_cancel_job")).0 in
      gated-keeps s headers (ok tt) (codes "dispatch_cancel_job") rate_limited_status_response
        (λ s'. job_cancelled (acquire s') job_id)
        (λ y. k.by_step _ _ (Step.cancel (acquire s').dispatch job_id) (acquire-keeps P k s' y)) x

  pub dispatch_job_status-keeps :
      (s : ApiState F S) (headers : HeaderMap) (job_id : ℕ)
      → P s.dispatch
      → P (dispatch_job_status s headers job_id).0.dispatch
  unfolding dispatch_job_status status_of
  dispatch_job_status-keeps s headers job_id x =
      gated-keeps s headers (ok tt) (codes "dispatch_job_status") rate_limited_json_response
        (λ s'. status_of (acquire s') job_id) (acquire-keeps P k _) x

  answer_events-keeps :
      ⦃r : Rfc3339⦄ (s : ApiState F S) (job_id : ℕ) (paging : Result Paging Response)
      → P s.dispatch
      → P (answer_events s job_id paging).0.dispatch
  unfolding answer_events
  answer_events-keeps s job_id (ok paging) x = acquire-keeps P k s x
  answer_events-keeps s job_id (err response) x = x

  pub dispatch_job_events-keeps :
      ⦃r : Rfc3339⦄ (s : ApiState F S) (headers : HeaderMap) (job_id : ℕ) (query : JobEventsQuery)
      → P s.dispatch
      → P (dispatch_job_events s headers job_id query).0.dispatch
  unfolding dispatch_job_events
  dispatch_job_events-keeps s headers job_id query x =
      elim (Bool-cases (is_dispatcher_authorized s headers)) [
        | inl q ↦ rw q (
            when_admitted-keeps s headers (codes "dispatch_job_events") rate_limited_json_response
              (λ s'. answer_events s' job_id (parse_query query))
              (answer_events-keeps _ job_id (parse_query query)) x)
        | inr q ↦ rw q x
      ]

module _ {F S : Type 0} ⦃f : F64 F⦄ ⦃h : H3 F⦄ ⦃c : Codec⦄ ⦃b : StorageBackend F S⦄ ⦃t : Tasks F S⦄
    ⦃u : Unicode⦄ (P : Engine F S → Type 0) (k : IsKept P) where
  pub dispatch_offer-keeps :
      (s : ApiState F S) (headers : HeaderMap) (payload : OfferRequest F)
      → any
          (is_accepted_for payload.job_id)
          (HashMap.values (submitted_in s headers).dispatch.offers)
        ≡ false
      → P s.dispatch
      → P (dispatch_offer s headers payload).0.dispatch
  unfolding dispatch_offer submit
  dispatch_offer-keeps s headers payload free x =
      let s' = submitted_in s headers in
      gated-keeps P k s headers (validate_offer payload) (codes "dispatch_offer")
        rate_limited_json_response (λ s'. submit (acquire s') payload)
        (λ y.
          k.by_step (after_clock s').dispatch _
            (Step.submit (after_clock s').dispatch (job_request payload (now s')) free)
            (k.by_world s'.dispatch _ (acquire-keeps P k _ y)))
        x

  pub upsert_driver-keeps :
      (s : ApiState F S) (headers : HeaderMap) (payload : DriverUpsertRequest F)
      → P s.dispatch
      → P (upsert_driver s headers payload).0.dispatch
  unfolding upsert_driver located
  upsert_driver-keeps s headers payload x =
      let s' = acquire (check_dispatch_request s headers (codes "driver_upsert")).0 in
      gated-keeps P k s headers (validate_upsert payload) (codes "driver_upsert")
        rate_limited_status_response (λ s'. located (acquire s') payload)
        (λ y.
          k.by_step s'.dispatch _
            (Step.upsert_location s'.dispatch payload.driver_id payload.category payload.position
              payload.status)
            (acquire-keeps P k _ y))
        x
