-- ===== src/Api/Responses.antt =====
-- rust/crates/spatiad-api/src/lib.rs: how job states and events are shown to clients.
use spatiad.Base.{ℕ, Option, none, some}
use spatiad.Base.Text.{Text, codes}
use spatiad.Types.{OfferStatus}
use spatiad.Core.EventKind.{JobEventKind}
use spatiad.Core.State.{JobDispatchState, JobEventRecord}

pub record JobStatusResponse : Type 0 where
  pub job_id : ℕ
  pub state : Text
  pub matched_driver_id : Option ℕ
  pub matched_offer_id : Option ℕ

pub record JobEventResponse : Type 0 where
  pub at : ℕ
  pub kind : Text
  pub offer_id : Option ℕ
  pub driver_id : Option ℕ
  pub status : Option Text

abbrev pub unmatched_status : ℕ → Text → JobStatusResponse
unmatched_status job_id state = record {
  job_id = job_id;
  state = state;
  matched_driver_id = none;
  matched_offer_id = none;
}

-- The response of `dispatch_job_status`.
unfoldable pub job_status : ℕ → JobDispatchState → JobStatusResponse
job_status job_id JobDispatchState.unknown_job = unmatched_status job_id (codes "unknown")
job_status job_id JobDispatchState.pending = unmatched_status job_id (codes "pending")
job_status job_id JobDispatchState.searching = unmatched_status job_id (codes "searching")
job_status job_id JobDispatchState.cancelled = unmatched_status job_id (codes "cancelled")
job_status job_id (JobDispatchState.matched driver_id offer_id) = record {
  job_id = job_id;
  state = codes "matched";
  matched_driver_id = some driver_id;
  matched_offer_id = some offer_id;
}
job_status job_id JobDispatchState.exhausted = unmatched_status job_id (codes "exhausted")

unfoldable pub offer_status_label : OfferStatus → Text
offer_status_label OfferStatus.pending = codes "pending"
offer_status_label OfferStatus.accepted = codes "accepted"
offer_status_label OfferStatus.rejected = codes "rejected"
offer_status_label OfferStatus.expired = codes "expired"
offer_status_label OfferStatus.cancelled = codes "cancelled"

abbrev pub offer_response : ℕ → Text → ℕ → ℕ → Text → JobEventResponse
offer_response at kind offer_id driver_id status = record {
  at = at;
  kind = kind;
  offer_id = some offer_id;
  driver_id = some driver_id;
  status = some status;
}

-- The match of `map_job_event`, on the time and the kind of the event.
unfoldable pub map_kind : ℕ → JobEventKind → JobEventResponse
map_kind at JobEventKind.job_registered = record {
  at = at;
  kind = codes "job_registered";
  offer_id = none;
  driver_id = none;
  status = none;
}
map_kind at JobEventKind.job_cancelled = record {
  at = at;
  kind = codes "job_cancelled";
  offer_id = none;
  driver_id = none;
  status = some (codes "cancelled");
}
map_kind at (JobEventKind.webhook_delivery_failed offer_id) = record {
  at = at;
  kind = codes "webhook_delivery_failed";
  offer_id = some offer_id;
  driver_id = none;
  status = some (codes "webhook_delivery_failed");
}
map_kind at (JobEventKind.offer_created offer_id driver_id) =
    offer_response at (codes "offer_created") offer_id driver_id (codes "pending")
map_kind at (JobEventKind.offer_expired offer_id driver_id) =
    offer_response at (codes "offer_expired") offer_id driver_id (codes "expired")
map_kind at (JobEventKind.offer_cancelled offer_id driver_id) =
    offer_response at (codes "offer_cancelled") offer_id driver_id (codes "cancelled")
map_kind at (JobEventKind.offer_rejected offer_id driver_id) =
    offer_response at (codes "offer_rejected") offer_id driver_id (codes "rejected")
map_kind at (JobEventKind.offer_accepted offer_id driver_id) =
    offer_response at (codes "offer_accepted") offer_id driver_id (codes "accepted")
map_kind at (JobEventKind.match_confirmed offer_id driver_id) =
    offer_response at (codes "match_confirmed") offer_id driver_id (codes "matched")
map_kind at (JobEventKind.offer_status_updated offer_id status) = record {
  at = at;
  kind = codes "offer_status_updated";
  offer_id = some offer_id;
  driver_id = none;
  status = some (offer_status_label status);
}

unfoldable pub map_job_event : JobEventRecord → JobEventResponse
unfolding map_kind
map_job_event event = map_kind event.occurred_at event.kind
