-- ===== src/Api/Invariants/Recovering.antt =====
-- rust/crates/spatiad-api/src/lib.rs and spatiad-bin/src/main.rs: the tasks of the server as lists of
-- logged commands.
use spatiad.Base.{ℕ, ◌≡◌, List, [], nat_eq}
use spatiad.Platform.{F64, H3, Rfc3339}
use spatiad.Storage.{StorageBackend, Command}
use spatiad.Core.EventKind.{Codec}
use spatiad.Core.Recovery.{to_snapshot}
use spatiad.Core.Recovery.Life.{given}
use spatiad.Core.Recovery.Logged.{Logged, IsLogged, Logged-given, unchanged, IsLogged-and}
use spatiad.Dispatch.Recovering.{Step-IsLogged}
use spatiad.Ws.{MessageCodec}
use spatiad.Api.State.{ApiState, Tasks}
use spatiad.Api.Validation.{Unicode}
use spatiad.Api.Webhook.{WebhookPort}
use spatiad.Api.Invariants.{IsKept}
use spatiad.Api.Invariants.Server.{TaskRun, TaskRun-keeps}

module _ {F S : Type 0} ⦃f : F64 F⦄ ⦃h : H3 F⦄ ⦃c : Codec⦄ ⦃b : StorageBackend F S⦄ ⦃t : Tasks F S⦄
    ⦃u : Unicode⦄ ⦃r : Rfc3339⦄ ⦃m : MessageCodec F⦄ ⦃p : WebhookPort⦄ where
  -- If the other tasks change the engine between the locks of a task by commands that are appended to
  -- the log and then applied, and by snapshots, then so does the task: an HTTP request, a whole
  -- session of a driver, or a tick in the background; and the durable state changes as the machine on
  -- snapshots does on the list of these commands. A request for an offer of a job that is already
  -- matched when the service is called is excluded.
  pub TaskRun-given :
      (s s' : ApiState F S)
      → ((n : ℕ) (o : ApiState F S) → IsLogged o.dispatch (t.others n o).dispatch)
      → TaskRun s s'
      → (cmds : List (Command F)) × Logged cmds s.dispatch s'.dispatch
        × (to_snapshot s'.dispatch ≡ given (to_snapshot s.dispatch) cmds)
  TaskRun-given s s' others run =
      let start = s.dispatch in
      let kept : IsKept (IsLogged start) = record {
        by_step = λ e e' step l. IsLogged-and start e e' l (Step-IsLogged step);
        by_world = λ e w l. IsLogged-and start e (record e { world = w }) l ([], Logged.read e w);
        by_others = λ n o l. IsLogged-and start o.dispatch _ l (others n o);
      } in
      let (cmds, l) = TaskRun-keeps (IsLogged start) kept s s' run (unchanged start) in
      (cmds, l, Logged-given cmds start s'.dispatch l)
