-- ===== src/Api/Limits.antt =====
-- rust/crates/spatiad-api/src/lib.rs: the rate limit of the dispatch requests, and its responses.
use spatiad.Base.{List, [], ◌∷◌, ◌++◌, if◌then◌else◌}
use spatiad.Base.Text.{Text, codes, show}
use spatiad.Api.State.{ApiState, Tasks, acquire, now, after_clock}
use spatiad.Api.Http.{Response, Body, too_many_requests}
use spatiad.Api.Authorization.{HeaderMap, dispatch_actor_key}
use spatiad.Api.RateLimiter
use spatiad.Api.RateLimiter.{RateLimitSnapshot}

-- `apply_rate_limit_headers`, on a response with no headers. A decimal number is a header value.
unfoldable pub rate_limit_headers : RateLimitSnapshot → List (Text × Text)
rate_limit_headers snapshot =
    (codes "x-ratelimit-limit", show snapshot.limit)
    ∷ (codes "x-ratelimit-remaining", show snapshot.remaining)
    ∷ (codes "x-ratelimit-reset", show snapshot.reset_seconds)
    ∷ (if snapshot.allowed
        then []
        else (codes "retry-after", show snapshot.retry_after_seconds) ∷ [])

unfoldable pub rate_limited_status_response : RateLimitSnapshot → Response
rate_limited_status_response snapshot = record {
  status = too_many_requests;
  headers = rate_limit_headers snapshot;
  body = Body.empty;
}

unfoldable pub rate_limited_json_response : RateLimitSnapshot → Response
rate_limited_json_response snapshot = record {
  status = too_many_requests;
  headers = rate_limit_headers snapshot;
  body = Body.error (codes "rate_limited") (codes "dispatch request rate limit exceeded");
}

module _ {F S : Type 0} ⦃t : Tasks F S⦄ where
  -- `limiter.check(key)`, which reads the clock.
  unfoldable pub checked : ApiState F S → Text → ApiState F S × RateLimitSnapshot
  checked s key =
      let (limiter, snapshot) = RateLimiter.check s.dispatch_rate_limiter (now s) key in
      (record (after_clock s) { dispatch_rate_limiter = limiter }, snapshot)

  unfoldable pub check_dispatch_request :
      ApiState F S → HeaderMap → Text → ApiState F S × RateLimitSnapshot
  unfolding checked
  check_dispatch_request s headers endpoint =
      checked (acquire s) (endpoint ++ (codes ":" ++ dispatch_actor_key headers))

  -- `if !rate_limit.allowed { return ..; }` before the rest of a handler.
  unfoldable pub when_admitted :
      ApiState F S
      → HeaderMap
      → Text
      → (RateLimitSnapshot → Response)
      → (ApiState F S → ApiState F S × Response)
      → ApiState F S × Response
  when_admitted s headers endpoint refuse rest =
      let (s', snapshot) = check_dispatch_request s headers endpoint in
      if snapshot.allowed then rest s' else (s', refuse snapshot)
