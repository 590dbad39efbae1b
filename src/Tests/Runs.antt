-- ===== src/Tests/Runs.antt =====
-- Whole runs of the engine: the saga of three steps, created, started and driven by reports.
use flowscale.Prelude.{
  String, Option, none, some, List, [], ◌∷◌, Bool, true, false, ◌≡◌, refl, map, if◌then◌else◌,
}
use flowscale.Models.{ExecutionStatus, ActivityExecution}
use flowscale.Runtime.{World, ActivityExecutionRow}
use flowscale.Engine.Success.{report_activity_success}
use flowscale.Engine.Failure.{report_activity_failure}
use flowscale.Engine.Manual.{cancel}
use flowscale.Tests.Scenario.{env, started, machine}

last_row : List ActivityExecutionRow → Option ActivityExecution
last_row [] = none
last_row (r ∷ []) = some r.act
last_row (r ∷ s ∷ rs) = last_row (s ∷ rs)

-- A report on the latest activity, a success or a failure.
answer_latest : Bool → World → World
unfolding last_row
answer_latest ok w = elim (last_row w.db.activity_executions) [
  | none ↦ w
  | some a ↦
      if ok
      then (report_activity_success env a.id a.execution_id a.activity_name w).1
      else (report_activity_failure env a.id a.execution_id a.activity_name false w).1
]

drive : List Bool → World → World
unfolding answer_latest
drive [] w = w
drive (b ∷ bs) w = drive bs (answer_latest b w)

abbrev names : World → List String
names w = map (λ r. r.act.activity_name) w.db.activity_executions

abbrev statuses : World → List ExecutionStatus
statuses w = map (λ r. r.status) w.db.executions

-- The steps run in order.
happy_run :
    (names (drive (true ∷ true ∷ true ∷ []) started) ≡ "reserve" ∷ "charge" ∷ "ship" ∷ [])
    × (statuses (drive (true ∷ true ∷ true ∷ []) started) ≡ ExecutionStatus.completed ∷ [])
unfolding drive machine
happy_run = (refl, refl)

-- The third step fails for good, and the two before it are undone, the later one first.
saga_run :
    (names (drive (true ∷ true ∷ false ∷ true ∷ true ∷ []) started)
      ≡ "reserve" ∷ "charge" ∷ "ship" ∷ "refund" ∷ "release" ∷ [])
    × (statuses (drive (true ∷ true ∷ false ∷ true ∷ true ∷ []) started)
        ≡ ExecutionStatus.compensated ∷ [])
unfolding drive machine
saga_run = (refl, refl)

-- A report that comes after the cancellation goes on with the workflow: three successes behind it
-- complete the cancelled execution.
cancelled_run :
    (statuses (cancel env "id3" started).1 ≡ ExecutionStatus.cancelled ∷ [])
    × (statuses (drive (true ∷ true ∷ true ∷ []) (cancel env "id3" started).1)
        ≡ ExecutionStatus.completed ∷ [])
unfolding drive machine cancel flowscale.Repository.ExecutionRepo.cancel_execution
cancelled_run = (refl, refl)
