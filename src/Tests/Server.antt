-- ===== src/Tests/Server.antt =====
-- The theorems on the whole server, its answers and its sessions, at concrete inputs.
use spatiad.Base.{List, ℕ, ◌≡◌, refl, true, false, none, some, [], ◌∷◌, ok, arith, nat_eq}
use spatiad.Base.Text.{codes, show}
use spatiad.Base.HashMap
use spatiad.Types.{DriverStatus}
use spatiad.Storage.{Command, InMemoryBackend, in_memory, in_memory_backend}
use spatiad.Core.EventKind.{JobEventKind}
use spatiad.Core.Offers.Exclusive.{IsExclusive}
use spatiad.Dispatch.{submit_job}
use spatiad.Dispatch.Run.{one_match}
use spatiad.Dispatch.Nearest.{IsTotalOrder}
use spatiad.Dispatch.Submission.{IsSubmitted, submit_job-IsSubmitted}
use spatiad.Ws.{DriverOutbound}
use spatiad.Api.State.{ApiState}
use spatiad.Api.Handlers.{dispatch_offer, cancel_job}
use spatiad.Api.Gates.{OfferAnswer, dispatch_offer-OfferAnswer}
use spatiad.Api.Refusals.{IsGuarded, endpoints-IsGuarded}
use spatiad.Api.Events.{encode_events_cursor, parse_events_cursor}
use spatiad.Api.Events.Cursor.{parse_events_cursor-encode_events_cursor}
use spatiad.Api.Sessions.{Message, Session, deliver}
use spatiad.Api.Sessions.{notify_competing_cancellations}
use spatiad.Api.Sessions.Cancellations.{messages_on, notify_competing_cancellations-messages_on}
use spatiad.Core.Offers.{cancelled_offers_for_job}
use spatiad.Api.State.{acquire}
use spatiad.Types.{OfferStatus}
use spatiad.Tests.Fixture.{offer_to}
use spatiad.Api.Messages.{replay_pending_offers}
use spatiad.Api.Connections.{Wake, register, unregister, handle_driver_session}
use spatiad.Api.Connections.Activity.{Activity, Later}
use spatiad.Api.Connections.Orphans.{IsEnding}
use spatiad.Api.Connections.Takeover.{reconnected-IsEnding}
use spatiad.Api.Connections.Replay.{replay_pending_offers-HasSent}
use spatiad.Api.Webhook.{Request, base_headers, signed_request, send_match_webhook}
use spatiad.Api.Webhook.Attempts.{schedule, send_match_webhook-schedule}
use spatiad.Api.Invariants.Recovering.{TaskRun-given}
use spatiad.Core.Recovery.{to_snapshot}
use spatiad.Core.Recovery.Life.{given}
use spatiad.Core.Recovery.Logged.{Logged, unchanged}
use spatiad.Api.Invariants.Server.{TaskRun, TaskRun-IsExclusive}
use spatiad.Tests.Fixture.{thousandths, grid, mute, world, place, tow_truck, job, engine}
use spatiad.Tests.Matching.{offered, offered-Run}
use spatiad.Tests.Ports.{
  quiet, one_code, accepting, second_attempt, server, request, anonymous, offer_request, socket,
}
use spatiad.Tests.Serving.{ascii}

-- The driver 1 connects, a tick comes, and it accepts its offer.
abbrev served : ApiState ℕ InMemoryBackend
served =
    (handle_driver_session (server offered) 1 socket
      (Wake.ticked ∷ Wake.inbound (some (ok (Message.text (codes "yes")))) ∷ [])).shared

TaskRun-IsExclusive_example : IsExclusive served.dispatch.offers
TaskRun-IsExclusive_example =
    TaskRun-IsExclusive (server offered) served (λ n o x. x)
      (TaskRun.driver_session (server offered) 1 socket
        (Wake.ticked ∷ Wake.inbound (some (ok (Message.text (codes "yes")))) ∷ []))
      (one_match 8 in_memory world offered offered-Run)

TaskRun-given_example :
    (cmds : List (Command ℕ)) × Logged cmds offered served.dispatch
    × (to_snapshot served.dispatch ≡ given (to_snapshot offered) cmds)
TaskRun-given_example =
    TaskRun-given (server offered) served (λ n o. unchanged o.dispatch)
      (TaskRun.driver_session (server offered) 1 socket
        (Wake.ticked ∷ Wake.inbound (some (ok (Message.text (codes "yes")))) ∷ []))

thousandths_order : IsTotalOrder ℕ
thousandths_order = record {
  total = λ x y p. ground (arith, p);
  trans = λ x y z p q. ground (arith, p, q);
}

submit_job-IsSubmitted_example : IsSubmitted engine job (submit_job engine job)
submit_job-IsSubmitted_example = submit_job-IsSubmitted thousandths_order engine job

dispatch_offer-OfferAnswer_example :
    OfferAnswer
      (server engine)
      request
      offer_request
      (dispatch_offer (server engine) request offer_request)
dispatch_offer-OfferAnswer_example =
    dispatch_offer-OfferAnswer thousandths_order (server engine) request offer_request

endpoints-IsGuarded_example :
    IsGuarded (server engine) anonymous (cancel_job (server engine) anonymous 7)
endpoints-IsGuarded_example =
    (endpoints-IsGuarded (server engine) anonymous offer_request
      (record {
        driver_id = 1;
        category = tow_truck;
        status = DriverStatus.available;
        position = place;
      })
      7 (record { limit = none; before = none; cursor = none; kinds = none })).3

parse_events_cursor-encode_events_cursor_example :
    parse_events_cursor (
      encode_events_cursor
        (record { sequence = 12; occurred_at = 5; kind = JobEventKind.job_cancelled }))
    ≡ ok (record { occurred_at = 5; sequence = 12 })
parse_events_cursor-encode_events_cursor_example =
    parse_events_cursor-encode_events_cursor
      (record { sequence = 12; occurred_at = 5; kind = JobEventKind.job_cancelled }) refl
      (omega arith)

abbrev hook_request : Request
hook_request = record {
  url = codes "http://host/hook";
  headers = base_headers (codes "0") (codes "nonce");
  body = codes "payload";
}

send_match_webhook-schedule_example :
    (send_match_webhook
      (server engine)
      (codes "http://host/hook")
      none
      3000
      (record { job_id = 7; driver_id = 1; offer_id = 100; matched_at = 1000 })).1
    ≡ schedule hook_request false true false
unfolding signed_request show
send_match_webhook-schedule_example =
    send_match_webhook-schedule (server engine) (codes "http://host/hook") none 3000
      (record { job_id = 7; driver_id = 1; offer_id = 100; matched_at = 1000 }) (codes "payload")
      hook_request refl refl refl

-- Driver 1 has a session over the channel 0, with a message in it, and connects again.
abbrev in_session : ApiState ℕ InMemoryBackend
in_session = deliver (register (server engine) 1) 1 (DriverOutbound.offer_expired 100)

abbrev again : ApiState ℕ InMemoryBackend
again = register in_session 1

reconnected-IsEnding_example :
    IsEnding (DriverOutbound.offer_expired 100 ∷ []) again 0 × IsEnding [] (unregister again 1 0) 1
unfolding register deliver HashMap.get HashMap.insert HashMap.adjust
reconnected-IsEnding_example =
    reconnected-IsEnding (server engine) in_session again (unregister again 1 0) 1 0 1
      (DriverOutbound.offer_expired 100 ∷ []) [] refl
      (Later.next (Later.next Later.here (Activity.connects (server engine) 1))
        (Activity.delivers (register (server engine) 1) 1 (DriverOutbound.offer_expired 100)))
      refl refl Later.here refl refl Later.here

abbrev connected : Session ℕ InMemoryBackend
connected = record { shared = server engine; socket = socket }

replay_pending_offers-HasSent_example : (replay_pending_offers 1 connected).1 ≡ ok tt
replay_pending_offers-HasSent_example =
    (replay_pending_offers-HasSent (λ _. codes "message") connected 1 (λ x. refl)
      (λ n. refl)).result

-- The driver 2 is connected, and its offer of the job is cancelled.
abbrev competing : ApiState ℕ InMemoryBackend
competing =
    register
      (server (record engine {
        offers = (101, record (offer_to 101 2) { status = OfferStatus.cancelled }) ∷ [];
      }))
      2

notify_competing_cancellations-messages_on_example :
    HashMap.get 0 (notify_competing_cancellations competing 7).channels
    ≡ some (DriverOutbound.offer_cancelled 101 7 ∷ [])
unfolding register HashMap.get HashMap.insert acquire messages_on cancelled_offers_for_job
notify_competing_cancellations-messages_on_example =
    notify_competing_cancellations-messages_on competing 7 0 [] refl refl
