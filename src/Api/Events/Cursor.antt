-- ===== src/Api/Events/Cursor.antt =====
-- The cursor of a page, printed and read again.
use spatiad.Base.{◌<◌, ◌^◌, ◌≡◌, some, ok, inr, arith}
use spatiad.Base.Text.{show}
use spatiad.Base.Decimal.{rsplit_once-join, show-IsFree, parse_u64-show}
use spatiad.Platform.{Rfc3339}
use spatiad.Core.State.{JobEventRecord}
use spatiad.Api.Events.{encode_events_cursor, parse_events_cursor}

module _ ⦃r : Rfc3339⦄ where
  -- The cursor that is printed for an event is read as the time and the number of that event, where
  -- the time is one that chrono reads as it printed it and the number is below 2^64.
  pub parse_events_cursor-encode_events_cursor :
      (event : JobEventRecord)
      → r.parse_from_rfc3339 (r.to_rfc3339 event.occurred_at) ≡ some event.occurred_at
      → event.sequence < 2 ^ 64
      → parse_events_cursor (encode_events_cursor event)
        ≡ ok (record { occurred_at = event.occurred_at; sequence = event.sequence })
  unfolding parse_events_cursor encode_events_cursor
  parse_events_cursor-encode_events_cursor event p l =
      rw
        (rsplit_once-join b'|' (r.to_rfc3339 event.occurred_at) (show event.sequence)
          (show-IsFree b'|' event.sequence (inr (omega arith))))
        (rw p (rw (parse_u64-show event.sequence l)))
