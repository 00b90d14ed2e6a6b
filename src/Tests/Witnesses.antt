-- ===== src/Tests/Witnesses.antt =====
-- The theorems at concrete inputs.
use spatiad.Base.{ℕ, ◌≡◌, refl, none, arith, nat_eq, ◌==◌, if◌then◌else◌}
use spatiad.Base.Text.{Text, text_eq}
use spatiad.Base.HashMap
use spatiad.Storage.{Command, in_memory_backend}
use spatiad.SpatialIndex
use spatiad.SpatialIndex.Agreement
use spatiad.Core.Journal.Numbering.{IsLogged, history}
use spatiad.Core.Commands.{apply_command}
use spatiad.Core.Commands.Numbering.{HasRoom, apply_command-IsLogged}
use spatiad.Core.Queries.{job_events_cursor_filtered}
use spatiad.Core.Queries.Page.{IsPage, job_events_cursor_filtered-IsPage}
use spatiad.Tests.Fixture.{thousandths, grid, mute, engine, place}

upsert_driver-IsAgreed_example :
    Agreement.IsAgreed (SpatialIndex.upsert_driver (SpatialIndex.new 8) 1 place)
    × ((c : Text) (d : ℕ)
        → Agreement.in_bucket (SpatialIndex.upsert_driver (SpatialIndex.new 8) 1 place) c d ≡ (
            if d == 1
            then c == SpatialIndex.cell_key (SpatialIndex.new 8) place
            else Agreement.in_bucket (SpatialIndex.new 8) c d))
upsert_driver-IsAgreed_example =
    Agreement.upsert_driver-IsAgreed (SpatialIndex.new 8) 1 place (Agreement.new-IsAgreed 8)

engine-HasRoom : HasRoom engine
unfolding HashMap.get
engine-HasRoom j = omega arith

engine-IsLogged : IsLogged engine
unfolding HashMap.get
engine-IsLogged = record { numbered = λ j. tt; bounded = λ j. omega arith }

apply_command-IsLogged_example : IsLogged (apply_command engine (Command.accept_offer 100 1001))
apply_command-IsLogged_example =
    apply_command-IsLogged engine (Command.accept_offer 100 1001) engine-HasRoom engine-IsLogged

job_events_cursor_filtered-IsPage_example :
    IsPage (history engine 7) 10 none none (job_events_cursor_filtered engine 7 10 none none)
job_events_cursor_filtered-IsPage_example =
    job_events_cursor_filtered-IsPage engine 7 10 none none refl engine-IsLogged
