-- ===== src/Api/Refusals.antt =====
-- rust/crates/spatiad-api/src/lib.rs: which requests of a dispatcher are answered by 401.
use spatiad.Base.{
  ℕ, ◌≡◌, ◌≢◌, refl, Bool, true, false, inl, inr, Option, none, some, Result, ok, err, map_err,
  nat_eq, arith, Bool-cases, if◌then◌else◌,
}
use spatiad.Base.Text.{Text, codes}
use spatiad.Platform.{F64, H3, Rfc3339}
use spatiad.Types.{OfferRecord}
use spatiad.Storage.{StorageBackend}
use spatiad.Core.EventKind.{Codec}
use spatiad.Dispatch.{DispatchError, submit_job}
use spatiad.Dispatch.Views
use spatiad.Api.State.{ApiState, Tasks, acquire, now, after_clock}
use spatiad.Api.Authorization.{HeaderMap, is_dispatcher_authorized}
use spatiad.Api.Http.{OfferRequest, DriverUpsertRequest, JobEventsQuery, Response}
use spatiad.Api.RateLimiter.{RateLimitSnapshot}
use spatiad.Api.Limits.{
  check_dispatch_request, when_admitted, rate_limited_json_response, rate_limited_status_response,
}
use spatiad.Api.Validation.{Unicode, validate_category, validate_coordinates}
use spatiad.Api.Handlers.{
  job_request, offer_answer, when_authorized, when_valid, submit, dispatch_offer, validate_upsert,
  validate_offer, located, upsert_driver, offer_cancelled, cancel_offer, job_cancelled, cancel_job,
  status_of, dispatch_job_status,
}
use spatiad.Api.Kinds.{parse_job_event_kinds}
use spatiad.Api.Events.{
  Paging, invalid_query, both_given, refuse_both, parse_before, parse_cursor, parse_events_cursor,
  parse_query, answer_events, dispatch_job_events,
}
use spatiad.Api.Gates.{
  IsBadRequest, or_bad_request-IsBadRequest, bind-IsBadRequest, validate_offer-IsBadRequest,
}

invalid_query-IsBadRequest :
    {A : Type 0} (r : Result A Text) → IsBadRequest (map_err invalid_query r)
invalid_query-IsBadRequest (ok _) = tt
invalid_query-IsBadRequest (err _) = refl

module _ ⦃r : Rfc3339⦄ where
  refuse_both-IsBadRequest : (both : Bool) → IsBadRequest (refuse_both both)
  refuse_both-IsBadRequest true = refl
  refuse_both-IsBadRequest false = tt

  parse_before-IsBadRequest : (before : Option Text) → IsBadRequest (parse_before before)
  parse_before-IsBadRequest none = tt
  parse_before-IsBadRequest (some raw) =
      elim (r.parse_from_rfc3339 raw)
        as (λ found. IsBadRequest (elim found [
          | none ↦ err (invalid_query (codes "invalid 'before' cursor; expected RFC3339 timestamp"))
          | some value ↦ ok (some value)
        ])) [ none ↦ refl | some value ↦ tt ]

  parse_cursor-IsBadRequest : (cursor : Option Text) → IsBadRequest (parse_cursor cursor)
  parse_cursor-IsBadRequest none = tt
  parse_cursor-IsBadRequest (some raw) =
      bind-IsBadRequest _ _ (invalid_query-IsBadRequest (parse_events_cursor raw)) λ _. tt

  parse_query-IsBadRequest : (query : JobEventsQuery) → IsBadRequest (parse_query query)
  unfolding parse_query
  parse_query-IsBadRequest query =
      bind-IsBadRequest _ _ (refuse_both-IsBadRequest (both_given query.before query.cursor)) λ _.
        bind-IsBadRequest _ _ (parse_before-IsBadRequest query.before) λ _.
          bind-IsBadRequest _ _ (parse_cursor-IsBadRequest query.cursor) λ _.
            bind-IsBadRequest _ _ (invalid_query-IsBadRequest (parse_job_event_kinds query.kinds))
              λ _. tt

module _ {F : Type 0} ⦃f : F64 F⦄ ⦃u : Unicode⦄ where
  validate_upsert-IsBadRequest :
      (payload : DriverUpsertRequest F) → IsBadRequest (validate_upsert payload)
  unfolding validate_upsert
  validate_upsert-IsBadRequest payload =
      bind-IsBadRequest _ _ (or_bad_request-IsBadRequest _ (validate_category payload.category))
        λ _. or_bad_request-IsBadRequest _ (validate_coordinates payload.position)

json_limited : (snapshot : RateLimitSnapshot) → (rate_limited_json_response snapshot).status ≡ 429
unfolding rate_limited_json_response
json_limited snapshot = refl

status_limited :
    (snapshot : RateLimitSnapshot) → (rate_limited_status_response snapshot).status ≡ 429
unfolding rate_limited_status_response
status_limited snapshot = refl

module _ {F S : Type 0} where
  -- An answer other than 401.
  data IsOther (answer : ApiState F S × Response) : Type 0 where
    other : answer.1.status ≢ 401 → IsOther answer

  -- An answer is 401 exactly if the request is not authorized, and then nothing changed.
  pub data IsGuarded (s : ApiState F S) (headers : HeaderMap) (answer : ApiState F S × Response)
      : Type 0 where
    passed :
        is_dispatcher_authorized s headers ≡ true
        → answer.1.status ≢ 401
        → IsGuarded s headers answer
    refused :
        is_dispatcher_authorized s headers ≡ false
        → answer.1.status ≡ 401
        → answer.0 ≡ s
        → IsGuarded s headers answer

  passed_on :
      (s : ApiState F S) (headers : HeaderMap) (answer : ApiState F S × Response)
      → is_dispatcher_authorized s headers ≡ true
      → IsOther answer
      → IsGuarded s headers answer
  passed_on s headers answer q (IsOther.other x) = IsGuarded.passed q x

  when_authorized-IsGuarded :
      (s : ApiState F S) (headers : HeaderMap) (answer : ApiState F S × Response)
      → IsOther answer
      → IsGuarded s headers (when_authorized s headers λ _. answer)
  when_authorized-IsGuarded s headers answer x =
      elim (Bool-cases (is_dispatcher_authorized s headers)) [
        | inl q ↦ rw q (passed_on s headers _ q x)
        | inr q ↦ rw q (IsGuarded.refused q refl refl)
      ]

  when_valid-IsOther :
      (s : ApiState F S) (r : Result (Unit {0}) Response) (answer : ApiState F S × Response)
      → IsBadRequest r
      → IsOther answer
      → IsOther (when_valid s r λ _. answer)
  when_valid-IsOther s (ok _) answer bad x = x
  when_valid-IsOther s (err response) answer bad x = IsOther.other (ground (arith, bad))

module _ {F S : Type 0} ⦃t : Tasks F S⦄ where
  when_admitted-IsOther :
      (s : ApiState F S) (headers : HeaderMap) (endpoint : Text)
      (refuse : RateLimitSnapshot → Response) (rest : ApiState F S → ApiState F S × Response)
      → ((snapshot : RateLimitSnapshot) → (refuse snapshot).status ≡ 429)
      → ((s' : ApiState F S) → IsOther (rest s'))
      → IsOther (when_admitted s headers endpoint refuse rest)
  unfolding when_admitted
  when_admitted-IsOther s headers endpoint refuse rest limited x =
      elim (Bool-cases (check_dispatch_request s headers endpoint).1.allowed) [
        | inl q ↦ rw q (x _)
        | inr q ↦
            rw q (
              IsOther.other (ground (arith, limited (check_dispatch_request s headers endpoint).1)))
      ]

offer_answer_other : (r : Result OfferRecord DispatchError) → (offer_answer r).status ≢ 401
offer_answer_other (ok _) = ground arith
offer_answer_other (err _) = ground arith

known_other : (known : Bool) → ◌≢◌ {A = ℕ} (if known then 200 else 404) 401
known_other true = ground arith
known_other false = ground arith

module _ {F S : Type 0} ⦃c : Codec⦄ ⦃b : StorageBackend F S⦄ ⦃r : Rfc3339⦄ ⦃t : Tasks F S⦄ where
  answer_events-IsOther :
      (s : ApiState F S) (job_id : ℕ) (query : Result Paging Response)
      → IsBadRequest query
      → IsOther (answer_events s job_id query)
  unfolding answer_events
  answer_events-IsOther s job_id (ok paging) bad = IsOther.other (ground arith)
  answer_events-IsOther s job_id (err response) bad = IsOther.other (ground (arith, bad))

  dispatch_job_events-IsGuarded :
      (s : ApiState F S) (headers : HeaderMap) (job_id : ℕ) (query : JobEventsQuery)
      → IsGuarded s headers (dispatch_job_events s headers job_id query)
  unfolding dispatch_job_events
  dispatch_job_events-IsGuarded s headers job_id query =
      elim (Bool-cases (is_dispatcher_authorized s headers)) [
        | inl q ↦ rw q (
            passed_on s headers _ q (
              when_admitted-IsOther s headers _ _ _ json_limited λ s'.
                answer_events-IsOther s' job_id (parse_query query)
                  (parse_query-IsBadRequest query)))
        | inr q ↦ rw q (IsGuarded.refused q refl refl)
      ]

module _ {F S : Type 0} ⦃f : F64 F⦄ ⦃h : H3 F⦄ ⦃c : Codec⦄ ⦃b : StorageBackend F S⦄ ⦃u : Unicode⦄
    ⦃t : Tasks F S⦄ ⦃r : Rfc3339⦄ where
  dispatch_offer-IsGuarded :
      (s : ApiState F S) (headers : HeaderMap) (payload : OfferRequest F)
      → IsGuarded s headers (dispatch_offer s headers payload)
  unfolding dispatch_offer submit
  dispatch_offer-IsGuarded s headers payload = when_authorized-IsGuarded s headers _ (
      when_valid-IsOther s (validate_offer payload) _ (validate_offer-IsBadRequest payload) (
        when_admitted-IsOther s headers _ _ _ json_limited λ s'. IsOther.other (
          offer_answer_other
            (submit_job (after_clock (acquire s')).dispatch
              (job_request payload (now (acquire s')))).1)))

  upsert_driver-IsGuarded :
      (s : ApiState F S) (headers : HeaderMap) (payload : DriverUpsertRequest F)
      → IsGuarded s headers (upsert_driver s headers payload)
  unfolding upsert_driver located
  upsert_driver-IsGuarded s headers payload = when_authorized-IsGuarded s headers _ (
      when_valid-IsOther s (validate_upsert payload) _ (validate_upsert-IsBadRequest payload)
        (when_admitted-IsOther s headers _ _ _ status_limited λ s'. IsOther.other (ground arith)))

  -- At each of the six endpoints for dispatchers, whatever the payload, the query and the load are,
  -- the answer is 401 exactly if the request is not authorized, and a request answered so changes
  -- nothing: no call is counted, no lock is taken, and the engine is as it was.
  pub endpoints-IsGuarded :
      (s : ApiState F S) (headers : HeaderMap) (offer : OfferRequest F)
      (driver : DriverUpsertRequest F) (id : ℕ) (query : JobEventsQuery)
      → IsGuarded s headers (dispatch_offer s headers offer)
        × IsGuarded s headers (upsert_driver s headers driver)
        × IsGuarded s headers (cancel_offer s headers id)
        × IsGuarded s headers (cancel_job s headers id)
        × IsGuarded s headers (dispatch_job_status s headers id)
        × IsGuarded s headers (dispatch_job_events s headers id query)
  unfolding cancel_offer offer_cancelled cancel_job job_cancelled dispatch_job_status status_of
  endpoints-IsGuarded s headers offer driver id query = (
    dispatch_offer-IsGuarded s headers offer,
    upsert_driver-IsGuarded s headers driver,
    when_authorized-IsGuarded s headers _
        (when_admitted-IsOther s headers _ _ _ status_limited λ s'. IsOther.other (ground arith)),
    when_authorized-IsGuarded s headers _ (
        when_admitted-IsOther s headers _ _ _ status_limited
          λ s'. IsOther.other (known_other (Views.cancel_job (acquire s').dispatch id).1)),
    when_authorized-IsGuarded s headers _
        (when_admitted-IsOther s headers _ _ _ json_limited λ s'. IsOther.other (ground arith)),
    dispatch_job_events-IsGuarded s headers id query,
  )
