-- ===== src/Tests/Recovering.antt =====
-- The theorems on recovery and on applying commands, at concrete inputs.
use spatiad.Base.{ℕ, ◌≡◌, refl, ok, arith}
use spatiad.Storage.{Command, in_memory_backend}
use spatiad.Core.State.{Engine}
use spatiad.Core.Commands.{append_and_apply, apply_command}
use spatiad.Core.Recovery.{to_snapshot, recover, create_snapshot}
use spatiad.Core.State.{with_storage}
use spatiad.Core.Recovery.Durable.{step, to_snapshot-apply_command}
use spatiad.Core.Recovery.Durability.{
  IsDurable, append_and_apply-IsDurable, recover-to_snapshot, create_snapshot-IsDurable,
}
use spatiad.Tests.Fixture.{thousandths, grid, mute, world, engine, job}
use spatiad.Tests.Log.{LogStore, log_backend, log_contract, started, started-IsDurable}

to_snapshot-apply_command_example :
    to_snapshot (apply_command engine (Command.accept_offer 100 1001))
    ≡ step (to_snapshot engine) (Command.accept_offer 100 1001)
to_snapshot-apply_command_example = to_snapshot-apply_command engine (Command.accept_offer 100 1001)

append_and_apply-IsDurable_example :
    IsDurable log_contract 8 (append_and_apply started (Command.register_job job))
unfolding with_storage
append_and_apply-IsDurable_example =
    append_and_apply-IsDurable log_contract 8 started (Command.register_job job) (omega arith) refl
      started-IsDurable

-- The engine once a job is registered, with one entry in the log.
abbrev pub registered : Engine ℕ LogStore
registered = append_and_apply started (Command.register_job job)

pub registered-IsDurable : IsDurable log_contract 8 registered
unfolding with_storage
registered-IsDurable =
    append_and_apply-IsDurable log_contract 8 started (Command.register_job job) (omega arith) refl
      started-IsDurable

recover-to_snapshot_example :
    (e : Engine ℕ LogStore) × (recover 8 registered.storage world ≡ ok e)
    × (to_snapshot e ≡ to_snapshot registered)
    × IsDurable log_contract 8 e
recover-to_snapshot_example =
    recover-to_snapshot log_contract 8 registered world registered-IsDurable

create_snapshot-IsDurable_example : IsDurable log_contract 8 (create_snapshot registered).0
create_snapshot-IsDurable_example =
    (create_snapshot-IsDurable log_contract 8 registered registered-IsDurable).1
