-- ===== src/Tests/Handlers.antt =====
-- The properties of single handlers at concrete inputs.
use Prim.Native.Nat.{ℕ}
use flowscale.Prelude.{
  ◌≡◌, refl, subst, ◌⊎◌, inl, true, false, none, some, [], ◌∷◌, String, any, find, suc, ◌-◌, ◌<◌,
  arith,
}
use flowscale.Models.{
  ActivityResultMessage, ℤ, pos, ExecutionStatus, ActivityStatus, ActivityExecution,
  ActivityTaskMessage, Schedule, ScheduleStatus, once, recurring,
}
use flowscale.Runtime.{World, ActivityExecutionRow, ok, tick}
use flowscale.Format.{idempotency_key, show}
use flowscale.Repository.ExecutionQueries.{find_activity}
use flowscale.Engine.Success.{report_activity_success}
use flowscale.Engine.Failure.{report_activity_failure}
use flowscale.Engine.Manual.{retry_dead_lettered_activity, cancel}
use flowscale.Engine.Manual.Once.{has_next, retry_dead_lettered_activity-once}
use flowscale.Engine.Consumers.{consume_result}
use flowscale.Engine.Reports.{Unchanged, consume_result-repeated}
use flowscale.Engine.Consumers.{acked, reap_timeouts, timeout_duration}
use flowscale.Engine.Consumers.Fresh.{IsFresh, reap_timeouts-fresh}
use flowscale.Scheduler.{advance_schedule}
use flowscale.Scheduler.Due.{NotDue, advance_schedule-one_time, advance_schedule-recurring}
use flowscale.Worker.{Handler, plain, handle_delivery}
use flowscale.Worker.Delivery.{ReadsDone, Reported, handle_delivery-Outcome}
use flowscale.Tests.Scenario.{env, empty_db, world_of}
use flowscale.Models.{Activity, RetryPolicy}
use flowscale.Prelude.{◌≢◌, sym, ◌∙◌, select, ◌==◌}
use flowscale.Repository.WorkflowRepo.{create_workflow, find_workflow}
use flowscale.Repository.WorkflowRepo.Roundtrip.{IsStorable, create_workflow-find_workflow}
use flowscale.Engine.Manual.{retry_compensation}
use flowscale.Engine.Effects.History.{History, handlers-History}
use flowscale.Tests.Scenario.{saga, step, machine}

abbrev attempt_of : String → ℕ → ActivityStatus → String → ActivityExecution
attempt_of name n status key = record {
  id = key;
  execution_id = "e";
  activity_name = name;
  attempt = n;
  status = status;
  idempotency_key = key;
  started_at = none;
  completed_at = none;
  dead_lettered_at = some 5;
}

abbrev first : ActivityExecution
first = attempt_of "reserve" 1 ActivityStatus.completed "e-reserve-1"

abbrev second : ActivityExecution
second = attempt_of "ship" 1 ActivityStatus.failed "e-ship-1"

abbrev third : ActivityExecution
third = attempt_of "ship" 2 ActivityStatus.pending "e-ship-2"

abbrev heard : ActivityExecution → ActivityExecutionRow
heard a = record { act = a; last_heartbeat_at = some 9 }

abbrev busy : World
busy = world_of (record empty_db {
  executions =
      record {
        id = "e";
        workflow_id = "w";
        status = ExecutionStatus.running;
        current_activity = "ship";
        created_at = 0;
        updated_at = 0;
      }
      ∷ [];
  activity_executions = heard first ∷ heard second ∷ heard third ∷ [];
})

first-found : find_activity "e-reserve-1" busy.db ≡ ok first
unfolding find_activity find
first-found = refl

second-found : find_activity "e-ship-1" busy.db ≡ ok second
unfolding find_activity find
second-found = refl

second-next : has_next second busy.db ≡ true
unfolding has_next any idempotency_key show
second-next = refl

abbrev failed_again : ActivityResultMessage
failed_again = record {
  execution_id = "e";
  activity_id = "e-ship-1";
  activity_name = "ship";
  success = false;
  error = "no stock";
  non_retryable = true;
}

consume_result-repeated_example : Unchanged busy (consume_result env (some failed_again) busy).1
consume_result-repeated_example =
    consume_result-repeated env failed_again busy second second-found refl

retry_dead_lettered_activity-once_example :
    Unchanged busy (retry_dead_lettered_activity env "e-ship-1" busy).1
retry_dead_lettered_activity-once_example =
    retry_dead_lettered_activity-once env "e-ship-1" second busy second-found second-next

-- The third row alone is PENDING, and the clock stands at 1.
busy-IsFresh :
    (r : ActivityExecutionRow)
    → r.last_heartbeat_at ≡ some 9
    → IsFresh (env.now (suc busy.calls) - timeout_duration) r
unfolding env
busy-IsFresh r h p = (9, h, omega arith)

reap_timeouts-fresh_example : Unchanged busy (reap_timeouts env busy)
reap_timeouts-fresh_example = reap_timeouts-fresh env busy (
  busy-IsFresh (heard first) refl,
  (busy-IsFresh (heard second) refl, (busy-IsFresh (heard third) refl, tt)),
)

abbrev nightly : Schedule
nightly = record {
  id = "s";
  workflow_id = "w";
  schedule_type = recurring;
  run_at = none;
  cron_expression = "";
  interval = "10s";
  next_run_at = 3;
  status = ScheduleStatus.active;
  created_at = 0;
  updated_at = 0;
}

abbrev tonight : Schedule
tonight = record nightly { schedule_type = once }

env-up : env.db_fails busy.calls ≡ false
unfolding env
env-up = refl

env-interval :
    nightly.cron_expression ≡ ""
    → (d : ℤ) → env.parse_duration nightly.interval ≡ some d
    → (k : ℕ) × (d ≡ pos (suc k))
unfolding env
env-interval e d h = (9, ground arith)

some-injective : {A : Type 0} {a b : A} → some a ≡ some b → a ≡ b
some-injective h = cc

env-cron :
    nightly.cron_expression ≢ ""
    → (next : ℕ → ℕ) → env.next_cron nightly.cron_expression ≡ some next
    → 3 < next 3
unfolding env
env-cron ne next h = subst (λ (f : ℕ → ℕ). 3 < f 3) (some-injective h) (omega arith)

advance_schedule-one_time_example : NotDue "s" 99 (advance_schedule env tonight 3 busy)
advance_schedule-one_time_example =
    advance_schedule-one_time env tonight 3 99 busy env-up (inl refl)

advance_schedule-recurring_example : NotDue "s" 3 (advance_schedule env nightly 3 busy)
advance_schedule-recurring_example =
    advance_schedule-recurring env nightly 3 busy env-up refl env-interval env-cron

abbrev task : ActivityTaskMessage
task = record {
  execution_id = "e";
  activity_id = "e-ship-2";
  activity_name = "ship";
  idempotency_key = "e-ship-2";
}

abbrev failing : Handler
failing t w = (some (plain "no stock"), w)

handle_delivery-Outcome_example :
    let (a, w') = handle_delivery env "ship" failing (some task) busy in
    (ReadsDone env task busy × (a ≡ acked) × Unchanged busy w')
    ⊎ ((¬ (ReadsDone env task busy))
        × Reported "ship" task (some (plain "no stock")) (tick busy) a w')
handle_delivery-Outcome_example = handle_delivery-Outcome env "ship" failing task busy

handlers-History_example :
    History busy.db (report_activity_success env "e-ship-2" "e" "ship" busy).1.db
    × History busy.db (report_activity_failure env "e-ship-2" "e" "ship" false busy).1.db
    × History busy.db (retry_compensation env "e" busy).1.db
    × History busy.db (retry_dead_lettered_activity env "e-ship-2" busy).1.db
    × History busy.db (cancel env "e" busy).1.db
handlers-History_example = handlers-History env "e-ship-2" "e" "ship" false busy

saga-stored : (create_workflow env saga (world_of empty_db)).0 ≡ ok tt
unfolding machine create_workflow
saga-stored = refl

nothing : select (λ row. row.workflow_id == "w") empty_db.activities ≡ []
unfolding select
nothing = refl

no_policy : (a : Activity) → a.retry_policy ≡ none → IsStorable a
no_policy a e p f = absurd (none-some (sym e ∙ f))
  where
    none-some : {p : RetryPolicy} → none ≢ some p
    none-some h = cc

create_workflow-find_workflow_example :
    find_workflow "w" (create_workflow env saga (world_of empty_db)).1.db
    ≡ ok (record saga { created_at = env.now 0; updated_at = env.now 0 })
create_workflow-find_workflow_example =
    create_workflow-find_workflow env saga (world_of empty_db) saga-stored nothing (
      no_policy (step "reserve" "release") refl,
      (no_policy (step "charge" "refund") refl, (no_policy (step "ship" "") refl, tt)),
    )
