-- ===== src/Api/Handlers.antt =====
-- rust/crates/spatiad-api/src/lib.rs: the handlers of the HTTP interface but the one on events.
use spatiad.Base.{
  ℕ, Bool, not, Option, none, some, length, Result, ok, err, ◌>>=◌, map_err, if◌then◌else◌,
}
use spatiad.Base.Text.{Text, codes}
use spatiad.Platform.{F64, H3}
use spatiad.Types.{Coordinates, JobRequest, OfferRecord}
use spatiad.Storage.{StorageBackend}
use spatiad.Core.EventKind.{Codec}
use spatiad.Core.State.{Engine}
use spatiad.Core.Mutations.{upsert_driver_location, stats}
use spatiad.Dispatch.{DispatchError, submit_job}
use spatiad.Dispatch
use spatiad.Dispatch.Views
use spatiad.Api.State.{ApiState, Tasks, acquire, now, after_clock}
use spatiad.Api.Authorization.{HeaderMap, is_dispatcher_authorized}
use spatiad.Api.Http.{
  OfferRequest, DriverUpsertRequest, Response, Body, status_response, json_response, ok_status,
  accepted_status, bad_request, unauthorized, not_found, service_unavailable,
}
use spatiad.Api.Limits.{when_admitted, rate_limited_json_response, rate_limited_status_response}
use spatiad.Api.Responses
use spatiad.Api.Validation.{
  Unicode, ValidationError, message, validate_category, validate_radius, validate_coordinates,
  validate_timeout_seconds,
}

-- `if let Err(e) = .. { return (BAD_REQUEST, ..) }`.
abbrev pub or_bad_request : Text → Result (Unit {0}) ValidationError → Result (Unit {0}) Response
or_bad_request error = map_err (λ e. json_response bad_request (Body.error error (message e)))

module _ {F : Type 0} ⦃f : F64 F⦄ where
  abbrev pub check_dropoff : Option (Coordinates F) → Result (Unit {0}) Response
  check_dropoff none = ok tt
  check_dropoff (some dropoff) =
      or_bad_request (codes "invalid_coordinates") (validate_coordinates dropoff)

  -- The checks of `dispatch_offer` and of `upsert_driver`, up to the first that fails.
  unfoldable pub validate_offer : ⦃u : Unicode⦄ → OfferRequest F → Result (Unit {0}) Response
  validate_offer payload = do
    _ ← or_bad_request (codes "invalid_category") (validate_category payload.category)
    _ ←
        or_bad_request (codes "invalid_radius")
          (validate_radius payload.initial_radius_km payload.max_radius_km)
    _ ← or_bad_request (codes "invalid_coordinates") (validate_coordinates payload.pickup)
    _ ← check_dropoff payload.dropoff
    or_bad_request (codes "invalid_timeout") (validate_timeout_seconds payload.timeout_seconds)

  unfoldable pub validate_upsert :
      ⦃u : Unicode⦄ → DriverUpsertRequest F → Result (Unit {0}) Response
  validate_upsert payload = do
    _ ← or_bad_request (codes "invalid_category") (validate_category payload.category)
    or_bad_request (codes "invalid_coordinates") (validate_coordinates payload.position)

  abbrev pub job_request : OfferRequest F → ℕ → JobRequest F
  job_request payload created_at = record {
    job_id = payload.job_id;
    category = payload.category;
    pickup = payload.pickup;
    dropoff = payload.dropoff;
    initial_radius_km = payload.initial_radius_km;
    max_radius_km = payload.max_radius_km;
    timeout_seconds = payload.timeout_seconds;
    created_at = created_at;
  }

-- The answer to a job that was submitted; `Uuid::nil()` is 0.
abbrev pub offer_answer : Result OfferRecord DispatchError → Response
offer_answer (ok offer) = json_response accepted_status (Body.offer_accepted offer.offer_id)
offer_answer (err _) = json_response not_found (Body.offer_accepted 0)

module _ {F S : Type 0} where
  -- `if !is_dispatcher_authorized(..) { return UNAUTHORIZED; }`.
  abbrev pub when_authorized :
      ApiState F S → HeaderMap → (Unit {0} → ApiState F S × Response) → ApiState F S × Response
  when_authorized s headers rest =
      if is_dispatcher_authorized s headers then rest tt else (s, status_response unauthorized)

  -- A request that fails a check is answered by the failure.
  abbrev pub when_valid :
      ApiState F S
      → Result (Unit {0}) Response
      → (Unit {0} → ApiState F S × Response)
      → ApiState F S × Response
  when_valid s (ok _) rest = rest tt
  when_valid s (err response) rest = (s, response)

  -- A call of the service under its lock.
  abbrev pub with_dispatch : ApiState F S → Engine F S → ApiState F S
  with_dispatch s e = record s { dispatch = e }

module _ {F S : Type 0} ⦃f : F64 F⦄ ⦃h : H3 F⦄ ⦃c : Codec⦄ ⦃b : StorageBackend F S⦄ ⦃u : Unicode⦄
    ⦃t : Tasks F S⦄ where
  -- What `dispatch_offer` does once it holds the service.
  unfoldable pub submit : ApiState F S → OfferRequest F → ApiState F S × Response
  submit s payload =
      let (e, result) = submit_job (after_clock s).dispatch (job_request payload (now s)) in
      (with_dispatch s e, offer_answer result)

  unfoldable pub dispatch_offer :
      ApiState F S → HeaderMap → OfferRequest F → ApiState F S × Response
  unfolding submit
  dispatch_offer s headers payload = when_authorized s headers λ _.
      when_valid s (validate_offer payload) λ _.
        when_admitted s headers (codes "dispatch_offer") rate_limited_json_response
          λ s'. submit (acquire s') payload

  unfoldable pub located : ApiState F S → DriverUpsertRequest F → ApiState F S × Response
  located s payload = (
    with_dispatch s (
        upsert_driver_location s.dispatch payload.driver_id payload.category payload.position
          payload.status),
    status_response ok_status,
  )

  unfoldable pub upsert_driver :
      ApiState F S → HeaderMap → DriverUpsertRequest F → ApiState F S × Response
  unfolding located
  upsert_driver s headers payload = when_authorized s headers λ _.
      when_valid s (validate_upsert payload) λ _.
        when_admitted s headers (codes "driver_upsert") rate_limited_status_response
          λ s'. located (acquire s') payload

module _ {F S : Type 0} ⦃f : F64 F⦄ ⦃h : H3 F⦄ ⦃c : Codec⦄ ⦃b : StorageBackend F S⦄
    ⦃t : Tasks F S⦄ where
  unfoldable pub offer_cancelled : ApiState F S → ℕ → ApiState F S × Response
  offer_cancelled s offer_id =
      (with_dispatch s (Dispatch.cancel_offer s.dispatch offer_id), status_response ok_status)

  unfoldable pub cancel_offer : ApiState F S → HeaderMap → ℕ → ApiState F S × Response
  unfolding offer_cancelled
  cancel_offer s headers offer_id = when_authorized s headers λ _.
      when_admitted s headers (codes "dispatch_cancel_offer") rate_limited_status_response
        λ s'. offer_cancelled (acquire s') offer_id

  unfoldable pub job_cancelled : ApiState F S → ℕ → ApiState F S × Response
  job_cancelled s job_id =
      let (e, known) = Views.cancel_job s.dispatch job_id in
      (with_dispatch s e, status_response (if known then ok_status else not_found))

  unfoldable pub cancel_job : ApiState F S → HeaderMap → ℕ → ApiState F S × Response
  unfolding job_cancelled
  cancel_job s headers job_id = when_authorized s headers λ _.
      when_admitted s headers (codes "dispatch_cancel_job") rate_limited_status_response
        λ s'. job_cancelled (acquire s') job_id

module _ {F S : Type 0} ⦃t : Tasks F S⦄ where
  unfoldable pub status_of : ApiState F S → ℕ → ApiState F S × Response
  status_of s job_id = (
    s,
    json_response ok_status (
        Body.job_status (Responses.job_status job_id (Views.job_dispatch_state s.dispatch job_id))),
  )

  unfoldable pub dispatch_job_status : ApiState F S → HeaderMap → ℕ → ApiState F S × Response
  unfolding status_of
  dispatch_job_status s headers job_id = when_authorized s headers λ _.
      when_admitted s headers (codes "dispatch_job_status") rate_limited_json_response
        λ s'. status_of (acquire s') job_id

-- `health`.
abbrev pub health : Response
health = json_response ok_status (Body.health (codes "ok") (codes "spatiad"))

abbrev pub not_ready : Text → Response
not_ready reason = json_response service_unavailable (Body.error (codes "not_ready") reason)

-- `ready`, for the outcomes of the two `try_lock`s.
unfoldable pub ready :
    {F S : Type 0} ⦃b : StorageBackend F S⦄ → ApiState F S → Bool → Bool → Response
ready s dispatch_free sessions_free =
    if not dispatch_free
    then not_ready (codes "dispatch state is temporarily busy")
    else if not sessions_free
    then not_ready (codes "session state is temporarily busy")
    else json_response ok_status (
        Body.ready (record {
          status = codes "ready";
          service = codes "spatiad";
          active_sessions = length s.sessions;
          engine = stats s.dispatch;
        }))
