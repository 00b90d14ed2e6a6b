-- ===== src/Core/Queries.antt =====
-- The event queries: a page of a job's history, newest first.
pub mod Newest
pub mod Page
use spatiad.Base.{
  ℕ, Bool, true, ◌&&◌, ◌||◌, Option, none, some, List, [], map, filter, filter_map, any, take,
  reverse, is_empty, ltb, ◌==◌, nat_eq, if◌then◌else◌, ok, err,
}
use spatiad.Base.Text.{Text}
use spatiad.Base.HashMap
use spatiad.Storage.{StorageBackend, StoredJobEvent, EventCursor}
use spatiad.Core.EventKind.{JobEventFilterKind, Codec, event_filter_kind, same_kind}
use spatiad.Core.State.{Engine, JobEventRecord, JobEventsCursor}

-- The closure on the cursor.
abbrev pub is_before : Option JobEventsCursor → JobEventRecord → Bool
is_before none event = true
is_before (some c) event =
    ltb event.occurred_at c.occurred_at
    || (event.occurred_at == c.occurred_at && ltb event.sequence c.sequence)

-- The closure on the kinds.
unfoldable pub is_requested : Option (List JobEventFilterKind) → JobEventRecord → Bool
is_requested none event = true
is_requested (some requested) event =
    is_empty requested || any (same_kind (event_filter_kind event.kind)) requested

abbrev pub max_items : ℕ → ℕ
max_items limit = if limit == 0 then 50 else limit

abbrev or_default : Option Text → Text
or_default none = []
or_default (some t) = t

abbrev pub storage_cursor : Option JobEventsCursor → Option EventCursor
storage_cursor none = none
storage_cursor (some c) = some (record { occurred_at = c.occurred_at; sequence = c.sequence })

abbrev pub at_time : Option ℕ → Option JobEventsCursor
at_time none = none
at_time (some t) = some (record { occurred_at = t; sequence = 0 })

module _ ⦃c : Codec⦄ where
  abbrev pub kind_filter : Option (List JobEventFilterKind) → Option (List Text)
  kind_filter none = none
  kind_filter (some ks) = some (map (λ k. or_default (c.filter_to_json k)) ks)

  -- An event whose kind does not parse is left out.
  unfoldable pub decode : StoredJobEvent → Option JobEventRecord
  decode se = elim (c.kind_from_json se.kind_json) [
    | none ↦ none
    | some kind ↦
        some (record { sequence = se.sequence; occurred_at = se.occurred_at; kind = kind })
  ]

module _ {F S : Type 0} ⦃c : Codec⦄ ⦃b : StorageBackend F S⦄ where
  unfoldable pub query_persistent_events :
      Engine F S
      → ℕ
      → ℕ
      → Option EventCursor
      → Option (List JobEventFilterKind)
      → List JobEventRecord
  query_persistent_events e job_id limit cursor kinds =
      elim (b.query_job_events e.storage job_id limit cursor (kind_filter kinds)) [
        | ok stored ↦ filter_map decode stored
        | err _ ↦ []
      ]

  unfoldable pub job_events_cursor_filtered :
      Engine F S
      → ℕ
      → ℕ
      → Option JobEventsCursor
      → Option (List JobEventFilterKind)
      → List JobEventRecord
  job_events_cursor_filtered e job_id limit cursor kinds =
      if b.is_persistent e.storage
      then query_persistent_events e job_id limit (storage_cursor cursor) kinds
      else elim (HashMap.get job_id e.job_events) [
        | none ↦ []
        | some events ↦
            take (max_items limit)
              (filter (is_requested kinds) (filter (is_before cursor) (reverse events)))
      ]

  unfoldable pub job_events_before_filtered :
      Engine F S → ℕ → ℕ → Option ℕ → Option (List JobEventFilterKind) → List JobEventRecord
  job_events_before_filtered e job_id limit before kinds =
      job_events_cursor_filtered e job_id limit (at_time before) kinds

  unfoldable pub job_events_before : Engine F S → ℕ → ℕ → Option ℕ → List JobEventRecord
  job_events_before e job_id limit before = job_events_before_filtered e job_id limit before none

  unfoldable pub job_events : Engine F S → ℕ → ℕ → List JobEventRecord
  job_events e job_id limit =
      if b.is_persistent e.storage
      then query_persistent_events e job_id limit none none
      else job_events_before e job_id limit none
