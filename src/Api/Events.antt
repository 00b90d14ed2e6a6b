-- ===== src/Api/Events.antt =====
-- rust/crates/spatiad-api/src/lib.rs: the cursor texts, and the handler `dispatch_job_events`.
pub mod Cursor
use Prim.Native.Nat.{max}
use spatiad.Base.{
  ℕ, Bool, true, false, ◌&&◌, Option, none, some, List, [], ◌∷◌, ◌++◌, map, length, leb, Result, ok,
  err, ◌>>=◌, map_err, ok_or, if◌then◌else◌,
}
use spatiad.Base.Text.{Text, codes, show}
use spatiad.Base.Decimal.{parse_u64, rsplit_once}
use spatiad.Platform.{Rfc3339}
use spatiad.Storage.{StorageBackend}
use spatiad.Core.EventKind.{JobEventFilterKind, Codec}
use spatiad.Core.State.{Engine, JobEventRecord, JobEventsCursor}
use spatiad.Dispatch.Views.{job_events_cursor_filtered, job_events_before_filtered}
use spatiad.Api.State.{ApiState, Tasks, acquire}
use spatiad.Api.Authorization.{HeaderMap, is_dispatcher_authorized}
use spatiad.Api.Http.{
  JobEventsQuery, JobEventsResponse, Response, Body, json_response, ok_status, bad_request,
  unauthorized,
}
use spatiad.Api.Limits.{when_admitted, rate_limited_json_response}
use spatiad.Api.Responses.{map_job_event}
use spatiad.Api.Kinds.{parse_job_event_kinds}

abbrev pub invalid_query : Text → Response
invalid_query reason = json_response bad_request (Body.error (codes "invalid_query") reason)

-- `event_records.last()`.
abbrev pub last : List JobEventRecord → Option JobEventRecord
last [] = none
last (x ∷ []) = some x
last (x ∷ y ∷ ys) = last (y ∷ ys)

module _ ⦃r : Rfc3339⦄ where
  unfoldable pub encode_events_cursor : JobEventRecord → Text
  encode_events_cursor event = r.to_rfc3339 event.occurred_at ++ (b'|' ∷ show event.sequence)

  unfoldable pub parse_events_cursor : Text → Result JobEventsCursor Text
  parse_events_cursor raw = do
    parts ←
        ok_or (codes "invalid 'cursor' format; expected '<rfc3339>|<sequence>'")
          (rsplit_once b'|' raw)
    occurred_at ←
        ok_or (codes "invalid cursor timestamp; expected RFC3339") (r.parse_from_rfc3339 parts.0)
    sequence ←
        ok_or (codes "invalid cursor sequence; expected unsigned integer") (parse_u64 parts.1)
    ok (record { occurred_at = occurred_at; sequence = sequence })

  -- The texts of the two paging parameters.
  abbrev pub parse_before : Option Text → Result (Option ℕ) Response
  parse_before none = ok none
  parse_before (some raw) = elim (r.parse_from_rfc3339 raw) [
    | none ↦ err (invalid_query (codes "invalid 'before' cursor; expected RFC3339 timestamp"))
    | some value ↦ ok (some value)
  ]

  abbrev pub parse_cursor : Option Text → Result (Option JobEventsCursor) Response
  parse_cursor none = ok none
  parse_cursor (some raw) = do
    cursor ← map_err invalid_query (parse_events_cursor raw)
    ok (some cursor)

  abbrev pub both_given : Option Text → Option Text → Bool
  both_given (some _) (some _) = true
  both_given _ _ = false

  abbrev pub refuse_both : Bool → Result (Unit {0}) Response
  refuse_both true = err (invalid_query (codes "use either 'before' or 'cursor', not both"))
  refuse_both false = ok tt

  abbrev pub limit_of : Option ℕ → ℕ
  limit_of none = 50
  limit_of (some n) = n

  -- What the query asks for, or the answer to a query that says nothing sensible.
  pub record Paging : Type 0 where
    pub limit : ℕ
    pub before : Option ℕ
    pub cursor : Option JobEventsCursor
    pub kinds : Option (List JobEventFilterKind)

  unfoldable pub parse_query : JobEventsQuery → Result Paging Response
  parse_query query = do
    _ ← refuse_both (both_given query.before query.cursor)
    before ← parse_before query.before
    cursor ← parse_cursor query.cursor
    kinds ← map_err invalid_query (parse_job_event_kinds query.kinds)
    ok (record { limit = limit_of query.limit; before = before; cursor = cursor; kinds = kinds })

  -- The text of the last event where the page may have a successor.
  abbrev pub next_of : (JobEventRecord → Text) → ℕ → List JobEventRecord → Option Text
  next_of print limit events =
      if leb (max limit 1) (length events)
      then elim (last events) [ none ↦ none | some event ↦ some (print event) ]
      else none

  unfoldable pub events_response : ℕ → ℕ → List JobEventRecord → JobEventsResponse
  events_response job_id limit events = record {
    job_id = job_id;
    events = map map_job_event events;
    next_before_cursor = next_of (λ event. r.to_rfc3339 event.occurred_at) limit events;
    next_cursor = next_of encode_events_cursor limit events;
  }

module _ {F S : Type 0} ⦃c : Codec⦄ ⦃b : StorageBackend F S⦄ where
  -- `if cursor.is_some() { .. } else { .. }`.
  unfoldable pub records_of :
      Engine F S
      → ℕ
      → ℕ
      → Option ℕ
      → Option JobEventsCursor
      → Option (List JobEventFilterKind)
      → List JobEventRecord
  records_of e job_id limit before none kinds =
      job_events_before_filtered e job_id limit before kinds
  records_of e job_id limit before (some cursor) kinds =
      job_events_cursor_filtered e job_id limit (some cursor) kinds

module _ {F S : Type 0} ⦃c : Codec⦄ ⦃b : StorageBackend F S⦄ ⦃r : Rfc3339⦄ ⦃t : Tasks F S⦄ where
  -- The rest of the handler once the request is admitted.
  unfoldable pub answer_events : ApiState F S → ℕ → Result Paging Response → ApiState F S × Response
  answer_events s job_id (err response) = (s, response)
  answer_events s job_id (ok paging) =
      let s' = acquire s in
      let events =
        records_of s'.dispatch job_id paging.limit paging.before paging.cursor paging.kinds in
      (s', json_response ok_status (Body.job_events (events_response job_id paging.limit events)))

  unfoldable pub dispatch_job_events :
      ApiState F S → HeaderMap → ℕ → JobEventsQuery → ApiState F S × Response
  unfolding answer_events
  dispatch_job_events s headers job_id query =
      if is_dispatcher_authorized s headers
      then when_admitted s headers (codes "dispatch_job_events") rate_limited_json_response
          (λ s'. answer_events s' job_id (parse_query query))
      else (
        s,
        json_response unauthorized
            (Body.error (codes "unauthorized") (codes "missing or invalid dispatcher auth token")),
      )
