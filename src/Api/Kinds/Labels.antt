-- ===== src/Api/Kinds/Labels.antt =====
-- `parse_job_event_kinds` on the labels of `map_job_event`.
use spatiad.Base.{ℕ, ◌≡◌, refl, some, [], ◌∷◌, ok}
use spatiad.Core.EventKind.{JobEventKind, event_filter_kind}
use spatiad.Api.Responses.{map_job_event, map_kind}
use spatiad.Api.Kinds.{parse_job_event_kinds, parse_parts, split, split_parts, kind_of_token}
use spatiad.Base.Text.{text_beq}
use spatiad.Api.Authorization.{trim, trim_start}

-- The label that an event is shown under, given as the query parameter `kinds`, asks for exactly the
-- kind of that event.
pub parse_job_event_kinds-map_job_event :
    (sequence occurred_at : ℕ) (kind : JobEventKind)
    → parse_job_event_kinds (
        some
          (map_job_event
            (record { sequence = sequence; occurred_at = occurred_at; kind = kind })).kind)
      ≡ ok (some (event_filter_kind kind ∷ []))
unfolding parse_job_event_kinds map_job_event map_kind event_filter_kind parse_parts split
    split_parts kind_of_token text_beq trim trim_start
parse_job_event_kinds-map_job_event n t JobEventKind.job_registered = refl
parse_job_event_kinds-map_job_event n t JobEventKind.job_cancelled = refl
parse_job_event_kinds-map_job_event n t (JobEventKind.webhook_delivery_failed _) = refl
parse_job_event_kinds-map_job_event n t (JobEventKind.offer_created _ _) = refl
parse_job_event_kinds-map_job_event n t (JobEventKind.offer_expired _ _) = refl
parse_job_event_kinds-map_job_event n t (JobEventKind.offer_cancelled _ _) = refl
parse_job_event_kinds-map_job_event n t (JobEventKind.offer_rejected _ _) = refl
parse_job_event_kinds-map_job_event n t (JobEventKind.offer_accepted _ _) = refl
parse_job_event_kinds-map_job_event n t (JobEventKind.match_confirmed _ _) = refl
parse_job_event_kinds-map_job_event n t (JobEventKind.offer_status_updated _ _) = refl
