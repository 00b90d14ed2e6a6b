-- ===== src/Api/Gates.antt =====
-- rust/crates/spatiad-api/src/lib.rs: the guards before a handler's work, and the answers to a request
-- for an offer.
use spatiad.Base.{
  ◌≡◌, refl, true, false, Option, none, some, Result, ok, err, ◌>>=◌, nat_eq, Bool-cases, inl, inr,
}
use spatiad.Base.Text.{Text, codes}
use spatiad.Base.HashMap
use spatiad.Platform.{F64, H3}
use spatiad.Types.{Coordinates, JobRequest, OfferRecord}
use spatiad.Storage.{StorageBackend}
use spatiad.Core.EventKind.{Codec}
use spatiad.Core.State.{Engine}
use spatiad.Dispatch.{DispatchError}
use spatiad.Dispatch.Nearest.{IsTotalOrder}
use spatiad.Dispatch.Submission.{IsFirstOffer, IsSubmitted, submit_job-IsSubmitted}
use spatiad.Api.State.{ApiState, Tasks, acquire, now, after_clock}
use spatiad.Api.Authorization.{HeaderMap, is_dispatcher_authorized}
use spatiad.Api.Http.{
  OfferRequest, Response, Body, status_response, json_response, unauthorized, not_found,
  accepted_status,
}
use spatiad.Api.Limits.{check_dispatch_request, when_admitted, rate_limited_json_response}
use spatiad.Api.Validation.{
  Unicode, ValidationError, validate_category, validate_radius, validate_coordinates,
  validate_timeout_seconds,
}
use spatiad.Api.Handlers.{
  or_bad_request, check_dropoff, validate_offer, job_request, offer_answer, when_valid,
  with_dispatch, submit, dispatch_offer,
}

-- A refusal has status 400.
abbrev pub IsBadRequest : {A : Type 0} → Result A Response → Type 0
IsBadRequest (ok _) = Unit {0}
IsBadRequest (err response) = response.status ≡ 400

pub or_bad_request-IsBadRequest :
    (error : Text) (r : Result (Unit {0}) ValidationError) → IsBadRequest (or_bad_request error r)
or_bad_request-IsBadRequest error (ok _) = tt
or_bad_request-IsBadRequest error (err e) = refl

pub bind-IsBadRequest :
    {A B : Type 0} (r : Result A Response) (rest : A → Result B Response)
    → IsBadRequest r
    → ((x : A) → IsBadRequest (rest x))
    → IsBadRequest (r >>= rest)
bind-IsBadRequest (ok a) rest x y = y a
bind-IsBadRequest (err response) rest x y = x

module _ {F : Type 0} ⦃f : F64 F⦄ ⦃u : Unicode⦄ where
  check_dropoff-IsBadRequest :
      (dropoff : Option (Coordinates F)) → IsBadRequest (check_dropoff dropoff)
  check_dropoff-IsBadRequest none = tt
  check_dropoff-IsBadRequest (some dropoff) =
      or_bad_request-IsBadRequest _ (validate_coordinates dropoff)

  pub validate_offer-IsBadRequest :
      (payload : OfferRequest F) → IsBadRequest (validate_offer payload)
  unfolding validate_offer
  validate_offer-IsBadRequest payload =
      bind-IsBadRequest _ _ (or_bad_request-IsBadRequest _ (validate_category payload.category))
        λ _.
          bind-IsBadRequest _ _
            (or_bad_request-IsBadRequest _
              (validate_radius payload.initial_radius_km payload.max_radius_km))
            λ _.
              bind-IsBadRequest _ _
                (or_bad_request-IsBadRequest _ (validate_coordinates payload.pickup))
                λ _. bind-IsBadRequest _ _ (check_dropoff-IsBadRequest payload.dropoff) λ _.
                  or_bad_request-IsBadRequest _ (validate_timeout_seconds payload.timeout_seconds)

module _ {F S : Type 0} ⦃f : F64 F⦄ ⦃h : H3 F⦄ ⦃c : Codec⦄ ⦃b : StorageBackend F S⦄ ⦃u : Unicode⦄
    ⦃t : Tasks F S⦄ where
  -- The service that a request finds that passes every guard, and the job that it submits.
  abbrev pub served_by : ApiState F S → HeaderMap → ApiState F S
  served_by s headers = acquire (check_dispatch_request s headers (codes "dispatch_offer")).0

  abbrev pub submitted_job : ApiState F S → HeaderMap → OfferRequest F → JobRequest F
  submitted_job s headers payload = job_request payload (now (served_by s headers))

  -- The request carries the token, every check of the payload succeeds, and the call is below the
  -- rate limit.
  abbrev pub IsAdmitted : ApiState F S → HeaderMap → OfferRequest F → Type 0
  IsAdmitted s headers payload =
      (is_dispatcher_authorized s headers ≡ true)
      × (validate_offer payload ≡ ok tt)
      × ((check_dispatch_request s headers (codes "dispatch_offer")).1.allowed ≡ true)

  -- The answers to a request for an offer, each with the state that it leaves.
  pub data OfferAnswer (s : ApiState F S) (headers : HeaderMap) (payload : OfferRequest F)
      : ApiState F S × Response → Type 0 where
    without_token :
        is_dispatcher_authorized s headers ≡ false
        → OfferAnswer s headers payload (s, status_response unauthorized)
    invalid :
        (response : Response)
        → is_dispatcher_authorized s headers ≡ true
        → validate_offer payload ≡ err response
        → response.status ≡ 400
        → OfferAnswer s headers payload (s, response)
    limited :
        is_dispatcher_authorized s headers ≡ true
        → validate_offer payload ≡ ok tt
        → (check_dispatch_request s headers (codes "dispatch_offer")).1.allowed ≡ false
        → OfferAnswer s headers payload (
          (check_dispatch_request s headers (codes "dispatch_offer")).0,
          rate_limited_json_response (check_dispatch_request s headers (codes "dispatch_offer")).1,
        )
    offered :
        (e : Engine F S) (offer : OfferRecord)
        → IsAdmitted s headers payload
        → IsFirstOffer
            (after_clock (served_by s headers)).dispatch
            (submitted_job s headers payload)
            e
            offer
        → OfferAnswer s headers payload (
          with_dispatch (served_by s headers) e,
          json_response accepted_status (Body.offer_accepted offer.offer_id),
        )
    no_driver :
        (e : Engine F S)
        → IsAdmitted s headers payload
        → HashMap.get payload.job_id e.jobs ≡ some (submitted_job s headers payload)
        → e.offers ≡ (served_by s headers).dispatch.offers
        → OfferAnswer s headers payload
            (with_dispatch (served_by s headers) e, json_response not_found (Body.offer_accepted 0))

  submitted-OfferAnswer :
      (s : ApiState F S) (headers : HeaderMap) (payload : OfferRequest F)
      (r : Engine F S × Result OfferRecord DispatchError)
      → IsAdmitted s headers payload
      → IsSubmitted (after_clock (served_by s headers)).dispatch (submitted_job s headers payload) r
      → OfferAnswer s headers payload (with_dispatch (served_by s headers) r.0, offer_answer r.1)
  submitted-OfferAnswer s headers payload (e, ok offer) admitted x =
      OfferAnswer.offered e offer admitted x
  submitted-OfferAnswer s headers payload (e, err _) admitted x =
      OfferAnswer.no_driver e admitted x.0 x.1

  admitted-OfferAnswer :
      (laws : IsTotalOrder F) (s : ApiState F S) (headers : HeaderMap) (payload : OfferRequest F)
      → is_dispatcher_authorized s headers ≡ true
      → validate_offer payload ≡ ok tt
      → OfferAnswer s headers payload (
          when_admitted s headers
            (codes "dispatch_offer")
            rate_limited_json_response
            λ s'. submit (acquire s') payload)
  unfolding when_admitted submit
  admitted-OfferAnswer laws s headers payload authorized valid =
      elim (Bool-cases (check_dispatch_request s headers (codes "dispatch_offer")).1.allowed) [
        | inl q ↦ rw q (
            submitted-OfferAnswer s headers payload _ (authorized, valid, q)
              (submit_job-IsSubmitted laws _ (submitted_job s headers payload)))
        | inr q ↦ rw q (OfferAnswer.limited authorized valid q)
      ]

  valid-OfferAnswer :
      (laws : IsTotalOrder F) (s : ApiState F S) (headers : HeaderMap) (payload : OfferRequest F)
      (r : Result (Unit {0}) Response)
      → is_dispatcher_authorized s headers ≡ true
      → validate_offer payload ≡ r
      → IsBadRequest r
      → OfferAnswer s headers payload (
          when_valid s r λ _.
            when_admitted s headers
              (codes "dispatch_offer")
              rate_limited_json_response
              λ s'. submit (acquire s') payload)
  valid-OfferAnswer laws s headers payload (ok tt) authorized p bad =
      admitted-OfferAnswer laws s headers payload authorized p
  valid-OfferAnswer laws s headers payload (err response) authorized p bad =
      OfferAnswer.invalid response authorized p bad

  -- Where `total_cmp` is a total order, a request for an offer has one of these answers: 401 without
  -- the token and 400 with it for a payload that a check refuses, both with no change; 429 with the
  -- token and a valid payload above the rate limit, with only the counting done; and only for a
  -- request that has the token, is valid and is below the limit, 202 with the id of an offer that is
  -- stored, pending, of the job and made to the nearest eligible driver within a radius up to the
  -- largest, or 404 with the job registered and no offer changed.
  pub dispatch_offer-OfferAnswer :
      (laws : IsTotalOrder F) (s : ApiState F S) (headers : HeaderMap) (payload : OfferRequest F)
      → OfferAnswer s headers payload (dispatch_offer s headers payload)
  unfolding dispatch_offer
  dispatch_offer-OfferAnswer laws s headers payload =
      elim (Bool-cases (is_dispatcher_authorized s headers)) [
        | inl q ↦ rw q (
            valid-OfferAnswer laws s headers payload (validate_offer payload) q refl
              (validate_offer-IsBadRequest payload))
        | inr q ↦ rw q (OfferAnswer.without_token q)
      ]
