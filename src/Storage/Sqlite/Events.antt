-- ===== src/Storage/Sqlite/Events.antt =====
-- rust/crates/spatiad-storage/src/sqlite.rs: the events that the backend stores and returns.
use spatiad.Base.{
  ℕ, ◌≡◌, refl, ◌&&◌, Option, none, List, map, filter, nat_beq, ◌==◌, ok, if◌then◌else◌,
}
use spatiad.Base.Text.{Text, text_eq}
use spatiad.Platform.{Rfc3339}
use spatiad.Storage.{EventCursor}
use spatiad.Storage.Tables.{UuidText, EventRow, select_events}
use spatiad.Storage.Tables.Newest.{IsNewest, select_events-IsNewest}
use spatiad.Storage.Sqlite.{
  SqliteBackend, text_lt, collect_event_row, is_selected, query_job_events,
}

module _ ⦃r : Rfc3339⦄ ⦃u : UuidText⦄ where
  -- The reads of the database succeed.
  abbrev pub IsReadable : SqliteBackend → Type 0
  IsReadable s = (s.prepare_error ≡ none) × (s.query_error ≡ none)

  query_job_events-rows :
      (s : SqliteBackend) (job_id limit : ℕ) (cursor : Option EventCursor)
      (kinds : Option (List Text))
      → IsReadable s
      → query_job_events s job_id limit cursor kinds
        ≡ ok (
            map (collect_event_row s.now) (
              select_events text_lt
                (u.uuid_text job_id)
                (is_selected cursor)
                (if nat_beq limit 0 then 50 else limit)
                s.job_events))
  unfolding query_job_events
  query_job_events-rows s job_id limit cursor kinds (p, q) = rw (p, q) refl

  -- Where the reads succeed, the query returns, of the rows of the job that come before the cursor,
  -- if there is one, as many as the limit allows, or 50 for the limit 0: the newest of them, newest
  -- first, whatever the kinds asked for are.
  pub query_job_events-IsNewest :
      (s : SqliteBackend) (job_id limit : ℕ) (cursor : Option EventCursor)
      (kinds : Option (List Text))
      → IsReadable s
      → (selected : List (EventRow Text)) × (query_job_events s job_id limit cursor kinds
          ≡ ok (map (collect_event_row s.now) selected))
        × IsNewest text_lt
            (filter
              (λ row. row.job_id == u.uuid_text job_id && is_selected cursor row)
              s.job_events)
            (if nat_beq limit 0 then 50 else limit)
            selected
  query_job_events-IsNewest s job_id limit cursor kinds readable = (
    select_events text_lt (u.uuid_text job_id) (is_selected cursor)
        (if nat_beq limit 0 then 50 else limit) s.job_events,
    query_job_events-rows s job_id limit cursor kinds readable,
    select_events-IsNewest text_lt (u.uuid_text job_id) (is_selected cursor) _ s.job_events,
  )
