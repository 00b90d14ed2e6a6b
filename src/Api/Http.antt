-- ===== src/Api/Http.antt =====
-- rust/crates/spatiad-api/src/lib.rs: the requests and the responses of the HTTP interface.
use spatiad.Base.{ℕ, Option, List, []}
use spatiad.Base.Text.{Text}
use spatiad.Types.{Coordinates, DriverStatus}
use spatiad.Core.State.{EngineStats}
use spatiad.Api.Responses.{JobStatusResponse, JobEventResponse}

pub record OfferRequest (F : Type 0) : Type 0 where
  pub job_id : ℕ
  pub category : Text
  pub pickup : Coordinates F
  pub dropoff : Option (Coordinates F)
  pub initial_radius_km : F
  pub max_radius_km : F
  pub timeout_seconds : ℕ

pub record DriverUpsertRequest (F : Type 0) : Type 0 where
  pub driver_id : ℕ
  pub category : Text
  pub status : DriverStatus
  pub position : Coordinates F

pub record JobEventsQuery : Type 0 where
  pub limit : Option ℕ
  pub before : Option Text
  pub cursor : Option Text
  pub kinds : Option Text

pub record JobEventsResponse : Type 0 where
  pub job_id : ℕ
  pub events : List JobEventResponse
  pub next_before_cursor : Option Text
  pub next_cursor : Option Text

pub record ReadyResponse : Type 0 where
  pub status : Text
  pub service : Text
  pub active_sessions : ℕ
  pub engine : EngineStats

-- The body of a response: `ApiErrorResponse`, and what the handlers return as JSON.
pub data Body : Type 0 where
  empty : Body
  error : Text → Text → Body
  offer_accepted : ℕ → Body
  job_status : JobStatusResponse → Body
  job_events : JobEventsResponse → Body
  health : Text → Text → Body
  ready : ReadyResponse → Body

pub record Response : Type 0 where
  pub status : ℕ
  pub headers : List (Text × Text)
  pub body : Body

-- `StatusCode::X.into_response()`.
abbrev pub status_response : ℕ → Response
status_response status = record { status = status; headers = []; body = Body.empty }

-- `(StatusCode::X, Json(body))`.
abbrev pub json_response : ℕ → Body → Response
json_response status body = record { status = status; headers = []; body = body }

abbrev pub ok_status : ℕ
ok_status = 200

abbrev pub accepted_status : ℕ
accepted_status = 202

abbrev pub bad_request : ℕ
bad_request = 400

abbrev pub unauthorized : ℕ
unauthorized = 401

abbrev pub not_found : ℕ
not_found = 404

abbrev pub too_many_requests : ℕ
too_many_requests = 429

abbrev pub service_unavailable : ℕ
service_unavailable = 503
