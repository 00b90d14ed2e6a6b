-- ===== src/Core/EventKind.antt =====
-- The kinds of job events, and their JSON texts as serde_json writes and reads them.
use spatiad.Base.{ℕ, Bool, Option}
use spatiad.Base.{nat_beq}
use spatiad.Base.Text.{Text}
use spatiad.Types.{OfferStatus}

pub data JobEventKind : Type 0 where
  job_registered job_cancelled : JobEventKind
  webhook_delivery_failed : ℕ → JobEventKind
  offer_created offer_expired offer_cancelled : ℕ → ℕ → JobEventKind
  offer_rejected offer_accepted match_confirmed : ℕ → ℕ → JobEventKind
  offer_status_updated : ℕ → OfferStatus → JobEventKind

pub data JobEventFilterKind : Type 0 where
  job_registered job_cancelled webhook_delivery_failed : JobEventFilterKind
  offer_created offer_expired offer_cancelled : JobEventFilterKind
  offer_rejected offer_accepted match_confirmed : JobEventFilterKind
  offer_status_updated : JobEventFilterKind

unfoldable pub event_filter_kind : JobEventKind → JobEventFilterKind
event_filter_kind JobEventKind.job_registered = JobEventFilterKind.job_registered
event_filter_kind JobEventKind.job_cancelled = JobEventFilterKind.job_cancelled
event_filter_kind (JobEventKind.webhook_delivery_failed o) =
    JobEventFilterKind.webhook_delivery_failed
event_filter_kind (JobEventKind.offer_created o d) = JobEventFilterKind.offer_created
event_filter_kind (JobEventKind.offer_expired o d) = JobEventFilterKind.offer_expired
event_filter_kind (JobEventKind.offer_cancelled o d) = JobEventFilterKind.offer_cancelled
event_filter_kind (JobEventKind.offer_rejected o d) = JobEventFilterKind.offer_rejected
event_filter_kind (JobEventKind.offer_accepted o d) = JobEventFilterKind.offer_accepted
event_filter_kind (JobEventKind.match_confirmed o d) = JobEventFilterKind.match_confirmed
event_filter_kind (JobEventKind.offer_status_updated o s) = JobEventFilterKind.offer_status_updated

discriminant : JobEventFilterKind → ℕ
discriminant JobEventFilterKind.job_registered = 0
discriminant JobEventFilterKind.job_cancelled = 1
discriminant JobEventFilterKind.webhook_delivery_failed = 2
discriminant JobEventFilterKind.offer_created = 3
discriminant JobEventFilterKind.offer_expired = 4
discriminant JobEventFilterKind.offer_cancelled = 5
discriminant JobEventFilterKind.offer_rejected = 6
discriminant JobEventFilterKind.offer_accepted = 7
discriminant JobEventFilterKind.match_confirmed = 8
discriminant JobEventFilterKind.offer_status_updated = 9

-- The derived `==`.
unfoldable pub same_kind : JobEventFilterKind → JobEventFilterKind → Bool
unfolding discriminant
same_kind a b = nat_beq (discriminant a) (discriminant b)

-- `serde_json::to_string(..).ok()` and `serde_json::from_str(..).ok()` at the two types.
pub record Codec : Type 0 where
  pub kind_to_json : JobEventKind → Option Text
  pub kind_from_json : Text → Option JobEventKind
  pub filter_to_json : JobEventFilterKind → Option Text
