-- ===== src/Dispatch/Recovering.antt =====
-- The calls of the service as lists of logged commands.
use spatiad.Base.{◌≡◌, List}
use spatiad.Platform.{F64, H3}
use spatiad.Storage.{StorageBackend, Command}
use spatiad.Core.EventKind.{Codec}
use spatiad.Core.State.{Engine}
use spatiad.Core.Mutations.{upsert_driver_location}
use spatiad.Core.Offers.Logging.{mark_offer_status-IsLogged}
use spatiad.Core.Recovery.{to_snapshot}
use spatiad.Core.Recovery.Life.{given}
use spatiad.Core.Recovery.Logged.{
  Logged, IsLogged, Logged-given, unchanged, one_command, IsLogged-and,
}
use spatiad.Dispatch.{cancel_offer}
use spatiad.Dispatch.Logging.{
  submit_job-IsLogged, response-IsLogged, expire_for_driver-IsLogged, expire_global-IsLogged,
  stale-IsLogged, cancel_job-IsLogged, webhook_failed-IsLogged,
}
use spatiad.Dispatch.Run.{Step, Run}

module _ {F S : Type 0} ⦃f : F64 F⦄ ⦃h : H3 F⦄ ⦃c : Codec⦄ ⦃b : StorageBackend F S⦄ where
  pub Step-IsLogged : {e e' : Engine F S} → Step e e' → IsLogged e e'
  unfolding upsert_driver_location cancel_offer
  Step-IsLogged (Step.upsert_location e _ _ _ _) = one_command e _ _
  Step-IsLogged (Step.stale e ttl) = stale-IsLogged e ttl
  Step-IsLogged (Step.submit e job free) = submit_job-IsLogged e job
  Step-IsLogged (Step.respond e offer_id accepted) = response-IsLogged e offer_id accepted
  Step-IsLogged (Step.cancel e job_id) = cancel_job-IsLogged e job_id
  Step-IsLogged (Step.withdraw e offer_id) = mark_offer_status-IsLogged e offer_id
  Step-IsLogged (Step.expire_for_driver e driver_id) = expire_for_driver-IsLogged e driver_id
  Step-IsLogged (Step.expire_global e) = expire_global-IsLogged e
  Step-IsLogged (Step.webhook_failed e job_id offer_id) = webhook_failed-IsLogged e job_id offer_id

  -- The commands of a run, each of them logged.
  Run-IsLogged : {start e : Engine F S} → Run start e → IsLogged start e
  Run-IsLogged {start = start} Run.here = unchanged start
  Run-IsLogged {start = start} {e = e} (Run.next {e = before} r s) =
      IsLogged-and start before e (Run-IsLogged r) (Step-IsLogged s)

  -- Calls of the service in any order, but with no job submitted again once it is matched, change the
  -- engine by a list of commands, each of them appended to the log and then applied, and change the
  -- durable state as the machine on snapshots does on that list.
  pub Run-given :
      {start e : Engine F S}
      → Run start e
      → (cmds : List (Command F)) × Logged cmds start e
        × (to_snapshot e ≡ given (to_snapshot start) cmds)
  Run-given {start = start} {e = e} r =
      let (cmds, l) = Run-IsLogged r in (cmds, l, Logged-given cmds start e l)
