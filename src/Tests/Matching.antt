-- ===== src/Tests/Matching.antt =====
-- The theorems on offers and jobs, at concrete inputs.
use spatiad.Base.{
  false, List, ℕ, ◌+◌, ◌/◌, none, [], ◌∷◌, ◌≡◌, refl, true, some, arith, nat_eq, ◌≢◌,
}
use spatiad.Base.HashMap
use spatiad.Types.{OfferStatus, DriverStatus}
use spatiad.Storage.{Command, in_memory, in_memory_backend, InMemoryBackend}
use spatiad.Core.State.{Engine, JobDispatchState, with_storage}
use spatiad.Core.Mutations.{upsert_driver_location, cancel_job}
use spatiad.Core.Commands.{append_and_apply, apply_command, apply_upsert_driver_location}
use spatiad.Core.Search.{Search, search_job, create_next_offer_for_job}
use spatiad.Core.Search.Reoffer.{IsNextOfferOrSame, create_next_offer_for_job-IsNextOffer}
use spatiad.Core.Search.Termination.{RadiusLaws, search_job_ends}
use spatiad.Core.Offers.{handle_offer_response, job_dispatch_state, expire_pending_offers_global}
use spatiad.Core.Offers.Responses.{IsKeyed}
use spatiad.Core.Offers.Outcomes.{IsOutcome, handle_offer_response-IsOutcome}
use spatiad.Core.Offers.Status.{job_dispatch_state_matched_iff}
use spatiad.Core.Offers.Exclusive.{IsExclusive}
use spatiad.Dispatch.Closing.{RunOfOthers, cancelled-IsClosed}
use spatiad.Core.Offers.Expiry.{get-expire_pending_offers_global}
use spatiad.Dispatch.{submit_job}
use spatiad.Dispatch
use spatiad.Dispatch.Recovering.{Run-given}
use spatiad.Core.Recovery.{to_snapshot}
use spatiad.Core.Recovery.Life.{given}
use spatiad.Core.Recovery.Logged.{Logged}
use spatiad.Dispatch.Run.{Step, Run, one_match}
use spatiad.Tests.Fixture.{thousandths, grid, mute, engine, offer_to, place, job, world, tow_truck}

engine_keys : IsKeyed engine.offers
unfolding HashMap.get
engine_keys k o e = ground arith

-- The job is cancelled, and then a driver responds to one of its offers.
abbrev cancelled : Engine ℕ InMemoryBackend
cancelled = (cancel_job engine 7).0

cancelled-IsClosed_example :
    create_next_offer_for_job (Dispatch.handle_offer_response cancelled 100 false).0 7
    ≡ ((Dispatch.handle_offer_response cancelled 100 false).0, none)
unfolding HashMap.get
cancelled-IsClosed_example =
    (cancelled-IsClosed 7 engine (Dispatch.handle_offer_response cancelled 100 false).0 refl
      (RunOfOthers.next RunOfOthers.here (Step.respond cancelled 100 false) tt)).3

-- The same engine before any offer is made.
abbrev idle_engine : Engine ℕ InMemoryBackend
idle_engine = record engine { offers = [] }

create_next_offer_for_job-IsNextOffer_example :
    IsNextOfferOrSame idle_engine 7 (create_next_offer_for_job idle_engine 7)
create_next_offer_for_job-IsNextOffer_example = create_next_offer_for_job-IsNextOffer idle_engine 7

-- The same engine at a time when both offers are overdue.
abbrev late_engine : Engine ℕ InMemoryBackend
late_engine = record engine { world = record { clock = λ n. 6000 + n; uuids = λ n. 500 + n } }

get-expire_pending_offers_global_example :
    HashMap.get 100 (expire_pending_offers_global late_engine).0.offers
    ≡ some (record (offer_to 100 1) { status = OfferStatus.expired })
unfolding HashMap.get
get-expire_pending_offers_global_example =
    get-expire_pending_offers_global late_engine 100 (refl, (refl, tt)) (refl, (refl, tt))

thousandths_laws : RadiusLaws ℕ
thousandths_laws = record {
  floor = λ x. x / 1000;
  min-cases = λ x y. ground arith;
  tenth = refl;
  le-max = λ a x y p. ground arith;
  lt-max = λ x y. ground arith;
  le-add = λ r p. ground arith;
  floor-add = λ r p q. omega arith;
  lt-add = λ m p q. ground arith;
  floor-le = λ m x p q t. ground arith;
}

search_job_ends_example : search_job job (λ radius_km. none) ≢ Search.out_of_fuel
unfolding thousandths_laws
search_job_ends_example = search_job_ends thousandths_laws job (λ radius_km. none) (omega arith)

abbrev pub empty_engine : Engine ℕ InMemoryBackend
empty_engine = with_storage 8 in_memory world

abbrev pub one_driver : Engine ℕ InMemoryBackend
one_driver = upsert_driver_location empty_engine 1 tow_truck place DriverStatus.available

abbrev pub offered : Engine ℕ InMemoryBackend
offered = (submit_job one_driver job).0

pub offered-Run : Run empty_engine offered
unfolding HashMap.get upsert_driver_location append_and_apply apply_command
    apply_upsert_driver_location with_storage
offered-Run =
    Run.next (Run.next Run.here (Step.upsert_location empty_engine 1 tow_truck place _))
      (Step.submit one_driver job refl)

-- A driver reports its place, the job is submitted and offered to it, and it accepts.
matched-Run : Run empty_engine (Dispatch.handle_offer_response offered 500 true).0
matched-Run = Run.next offered-Run (Step.respond offered 500 true)

Run-given_example :
    (cmds : List (Command ℕ)) × Logged cmds empty_engine
      (Dispatch.handle_offer_response offered 500 true).0
    × (to_snapshot (Dispatch.handle_offer_response offered 500 true).0
        ≡ given (to_snapshot empty_engine) cmds)
Run-given_example = Run-given matched-Run

one_match_example : IsExclusive (Dispatch.handle_offer_response offered 500 true).0.offers
one_match_example = one_match 8 in_memory world _ matched-Run

handle_offer_response-IsOutcome_example :
    IsOutcome engine 100 true (handle_offer_response engine 100 true)
handle_offer_response-IsOutcome_example =
    handle_offer_response-IsOutcome engine 100 true engine_keys

-- The same engine with one offer, which is accepted.
abbrev matched_engine : Engine ℕ InMemoryBackend
matched_engine = record engine {
  offers = (100, record (offer_to 100 1) { status = OfferStatus.accepted }) ∷ [];
}

matched_engine-IsExclusive : IsExclusive matched_engine.offers
unfolding HashMap.get
matched_engine-IsExclusive = record {
  keyed = λ k o e. ground arith;
  single = λ j k x y p q same acc live. ground arith;
}

job_dispatch_state_matched_iff_example :
    job_dispatch_state matched_engine 7 ≡ JobDispatchState.matched 1 100
unfolding HashMap.get
job_dispatch_state_matched_iff_example =
    (job_dispatch_state_matched_iff matched_engine 7 1 100 matched_engine-IsExclusive (refl, tt)
        refl).1
      (record (offer_to 100 1) { status = OfferStatus.accepted }, refl, refl, refl)
