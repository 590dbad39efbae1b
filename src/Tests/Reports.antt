-- ===== src/Tests/Reports.antt =====
-- The two reports on the first attempt of the saga, and where its task is.
use flowscale.Prelude.{◌≡◌, ◌⊎◌, ◌==◌, refl, true, false, none, any, String, List, [], ◌∷◌}
use flowscale.Models.{ActivityStatus, ActivityExecution}
use flowscale.Runtime.{ok}
use flowscale.Repository.ExecutionQueries.{find_activity}
use flowscale.Engine.Success.{report_activity_success}
use flowscale.Engine.Failure.{report_activity_failure}
use flowscale.Engine.Progress.{GoesOn}
use flowscale.Engine.Progress.Handlers.{
  report_activity_success-GoesOn, report_activity_failure-GoesOn,
}
use flowscale.Prelude.Predicates.{All, Any, here}
use flowscale.Runtime.{ActivityExecutionRow}
use flowscale.Repository.Sql.{fresh_row}
use flowscale.Queue.Routing.{is_plain}
use flowscale.Invariant.Dispatched.{Waits}
use flowscale.Invariant.EndToEnd.{Placed, pending-Placed}
use flowscale.System.{Reachable, initial, step, on_start, on_create, perform, empty_tables}
use flowscale.Tests.Fleet.{broker}
use flowscale.Tests.Scenario.{env, started, machine, saga, world_of}

abbrev first_attempt : ActivityExecution
first_attempt = record {
  id = "id4";
  execution_id = "id3";
  activity_name = "reserve";
  attempt = 1;
  status = ActivityStatus.pending;
  idempotency_key = "id3-reserve-1";
  started_at = none;
  completed_at = none;
  dead_lettered_at = none;
}

first_attempt-found : find_activity "id4" started.db ≡ ok first_attempt
unfolding machine
first_attempt-found = refl

success-returns : (report_activity_success env "id4" "id3" "reserve" started).0 ≡ ok tt
unfolding machine
success-returns = refl

failure-returns : (report_activity_failure env "id4" "id3" "reserve" false started).0 ≡ ok tt
unfolding machine
failure-returns = refl

report_activity_success-GoesOn_example :
    GoesOn "id3" (report_activity_success env "id4" "id3" "reserve" started).1.db
report_activity_success-GoesOn_example =
    report_activity_success-GoesOn env "id3" "id4" "reserve" first_attempt started
      first_attempt-found refl success-returns

report_activity_failure-GoesOn_example :
    GoesOn "id3" (report_activity_failure env "id4" "id3" "reserve" false started).1.db
report_activity_failure-GoesOn_example =
    report_activity_failure-GoesOn env "id3" "id4" "reserve" first_attempt false started
      first_attempt-found refl failure-returns

started-Reachable : Reachable env started
unfolding started perform
started-Reachable =
    step (on_start "w") _ (step (on_create saga) _ (initial (world_of empty_tables) refl))

abbrev first_row : ActivityExecutionRow
first_row = fresh_row 8 first_attempt

first_row-there : Any (λ x. x ≡ first_row) started.db.activity_executions
unfolding machine
first_row-there = here refl

abbrev registered : List String
registered = "reserve" ∷ "release" ∷ []

plain_names : All (λ n. is_plain n ≡ true) registered
unfolding is_plain
plain_names = (refl, (refl, tt))

is_registered : any (λ n. n == "reserve") registered ≡ true
unfolding any
is_registered = refl

pending-Placed_example :
    Any (Waits first_attempt) started.db.outbox
    ⊎ Any (Placed broker registered first_attempt) started.broker
pending-Placed_example =
    pending-Placed broker registered env started first_row started-Reachable plain_names
      first_row-there refl is_registered
