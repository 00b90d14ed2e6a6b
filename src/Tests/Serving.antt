-- ===== src/Tests/Serving.antt =====
-- The theorems on the server's parts, at concrete inputs.
use spatiad.Base.{
  none, ◌==◌, if◌then◌else◌, ℕ, ◌≡◌, refl, true, false, inl, some, [], ◌∷◌, ok, arith,
}
use spatiad.Base.Text.{codes, text_eq, text_beq}
use spatiad.Base.HashMap
use spatiad.Core.EventKind.{JobEventKind, JobEventFilterKind, event_filter_kind}
use spatiad.Api.RateLimiter.{SlidingWindowRateLimiter, check}
use spatiad.Api.RateLimiter.Window.{IsWindow, queue_of, check-recent, check-IsWindow}
use spatiad.Api.Authorization.{is_dispatcher_authorized, is_dispatcher_authorized_iff}
use spatiad.Api.Http.{Response, Body}
use spatiad.Api.Authorization.{HeaderMap}
use spatiad.Api.RequestContext.{
  HeaderValues, request_id_header, request_id, header_of, request_context_middleware, IsPlain,
  request_context_middleware-IsCorrelated,
}
use spatiad.Tests.Codec.{one_number}
use spatiad.Tests.Log.{LogStore}
use spatiad.Tests.Recovering.{registered}
use spatiad.Api.Validation.{Unicode, validate_radius}
use spatiad.Api.Validation.Conditions.{validate_radius_iff}
use spatiad.Api.State.{ApiState}
use spatiad.Storage.{InMemoryBackend}
use spatiad.Tests.Fixture.{thousandths, engine}
use spatiad.Tests.Ports.{server, request}
use spatiad.Api.Responses.{map_job_event}
use spatiad.Api.Kinds.{parse_job_event_kinds}
use spatiad.Api.Kinds.Labels.{parse_job_event_kinds-map_job_event}

-- Two calls in ten seconds, none so far.
abbrev limiter : SlidingWindowRateLimiter
limiter = record { limit_per_window = 2; window_seconds = 10; entries = [] }

check-recent_example : (check limiter 100 (codes "client")).1.allowed ≡ true
unfolding HashMap.get
check-recent_example = (check-recent limiter 100 (codes "client") tt).0

check-IsWindow_example :
    IsWindow 2 100 (queue_of (codes "client") (check limiter 100 (codes "client")).0)
unfolding HashMap.get
check-IsWindow_example =
    check-IsWindow limiter 50 100 (codes "client") (omega arith)
      (λ other. record { ascending = tt; past = tt; bounded = omega arith }) (codes "client")

abbrev secured : ApiState ℕ InMemoryBackend
secured = server engine

is_dispatcher_authorized_iff_example : is_dispatcher_authorized secured request ≡ true
unfolding text_beq
is_dispatcher_authorized_iff_example =
    (is_dispatcher_authorized_iff secured request (codes "secret") refl).1 (inl refl)

parse_job_event_kinds-map_job_event_example :
    parse_job_event_kinds (
      some
        (map_job_event
          (record { sequence = 1; occurred_at = 5; kind = JobEventKind.job_cancelled })).kind)
    ≡ ok (some (JobEventFilterKind.job_cancelled ∷ []))
unfolding event_filter_kind
parse_job_event_kinds-map_job_event_example =
    parse_job_event_kinds-map_job_event 1 5 JobEventKind.job_cancelled

-- Only ASCII characters are letters or digits.
instance abbrev pub ascii : Unicode
ascii = record { is_alphanumeric = λ c. false }

validate_radius_iff_example : validate_radius {F = ℕ} 1000 5000 ≡ ok tt
validate_radius_iff_example =
    (validate_radius_iff {F = ℕ} 1000 5000).1 (refl, refl, refl, refl, refl, refl)

-- Every text is a header value.
instance abbrev plain_values : HeaderValues
plain_values = record { accepts = λ _. true; to_str = λ t. some t }

abbrev named_request : HeaderMap
named_request name = if name == request_id_header then some (codes "r-1") else none

named_request-IsPlain : IsPlain one_number plain_values named_request
named_request-IsPlain = record {
  read_accepted = λ value p. refl;
  read_again = λ value p. refl;
  uuid_accepted = λ n. refl;
  uuid_read = λ n. refl;
}

-- The handler names the content of its answer.
abbrev answering : ApiState ℕ LogStore → HeaderMap → ApiState ℕ LogStore × Response
answering s headers = (
  s,
  record { status = 200; headers = (codes "content-type", codes "text") ∷ []; body = Body.empty },
)

request_context_middleware-IsCorrelated_example :
    header_of request_id_header
      (request_context_middleware answering (server registered) named_request).1.headers
    ≡ some (codes "r-1")
unfolding request_id text_beq
request_context_middleware-IsCorrelated_example =
    (request_context_middleware-IsCorrelated answering (server registered) named_request
      (codes "content-type") named_request-IsPlain refl).3
