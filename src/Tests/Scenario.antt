-- ===== src/Tests/Scenario.antt =====
-- A concrete environment, a saga of three steps, and its states.
use Prim.Native.String.{◌++◌ as ◌+++◌}
use flowscale.Prelude.{
  ℕ, ◌+◌, String, Option, none, some, List, [], ◌∷◌, ◌++◌, Bool, true, false, leb, sort_by,
}
use flowscale.Models.{pos, Activity, Workflow}
use flowscale.Runtime.{
  Env, Db, WorkflowRow, ActivityRow, ExecutionRow, ActivityExecutionRow, World, Metrics,
}
use flowscale.Format.{show}
use flowscale.Runtime.{◌>>=◌}
use flowscale.Repository.WorkflowRepo.{create_workflow}
use flowscale.Engine.Start.{start_workflow}
use flowscale.Engine.Success.{report_activity_success}
use flowscale.Engine.Failure.{report_activity_failure}

abbrev ends_before : Option ℕ → Option ℕ → Bool
ends_before none o = false
ends_before (some s) none = true
ends_before (some s) (some t) = leb s t

-- Nothing fails; rows without a completion time keep their order, behind the others.
unfoldable pub env : Env
unfolding show sort_by
env = record {
  uuid = λ n. ◌+++◌ "id" (show n);
  now = λ n. n;
  db_fails = λ n. false;
  mq_fails = λ n. false;
  lock_granted = λ n. true;
  by_completed_at = sort_by (λ a b. ends_before a.completed_at b.completed_at);
  next_cron = λ s. some (λ n. n + 60);
  parse_duration = λ s. some (pos 10);
}

abbrev pub step : String → String → Activity
step name comp = record { name = name; compensation = comp; retry_policy = none; timeout = "5m" }

abbrev pub saga : Workflow
saga = record {
  id = "w";
  name = "saga";
  activities = step "reserve" "release" ∷ step "charge" "refund" ∷ step "ship" "" ∷ [];
  created_at = 0;
  updated_at = 0;
}

abbrev pub empty_db : Db
empty_db = record {
  workflows = [];
  activities = [];
  executions = [];
  events = [];
  activity_executions = [];
  outbox = [];
  schedules = [];
  users = [];
}

abbrev pub world_of : Db → World
world_of db = record {
  db = db;
  broker = [];
  locks = [];
  metrics = record { workflows_started = 0; workflows_completed = 0; workflows_failed = 0 };
  calls = 0;
  shipment_down = false;
}

-- The state with the saga created and started once.
unfoldable pub started : World
unfolding create_workflow start_workflow env ◌>>=◌
started = (start_workflow env "w" (create_workflow env saga (world_of empty_db)).1).1

-- Naming this opens the engine for a run.
unfoldable pub machine : Unit {0}
unfolding flowscale.Repository.WorkflowRepo.find_workflow
    flowscale.Repository.WorkflowRepo.insert_workflow
    flowscale.Repository.WorkflowRepo.insert_activities
    flowscale.Repository.WorkflowRepo.insert_activity_row
    flowscale.Repository.WorkflowRepo.activity_row flowscale.Repository.WorkflowRepo.to_activity
    flowscale.Repository.WorkflowRepo.create_workflow flowscale.Prelude.find flowscale.Prelude.any
    flowscale.Prelude.select flowscale.Prelude.update flowscale.Prelude.insert_sorted
    flowscale.Prelude.sort_by flowscale.Repository.Sql.insert_execution
    flowscale.Repository.Sql.insert_event flowscale.Repository.Sql.insert_activity
    flowscale.Repository.Sql.insert_outbox flowscale.Repository.Sql.update_activity
    flowscale.Repository.Sql.update_execution flowscale.Engine.Lock.with_lock
    flowscale.Engine.Lock.lock_workflow flowscale.Engine.Lock.unlock_workflow
    flowscale.Engine.Lock.lock_key flowscale.Engine.Lock.unlock_once
    flowscale.Repository.ExecutionQueries.find_activity
    flowscale.Repository.ExecutionQueries.activities_of
    flowscale.Repository.ExecutionQueries.find_execution flowscale.Engine.Build.new_event_at
    flowscale.Engine.Build.new_activity flowscale.Engine.Build.new_event
    flowscale.Engine.Build.new_outbox flowscale.Engine.Compensation.collect
    flowscale.Engine.Compensation.determine_next_compensation flowscale.Engine.Compensation.scan
    flowscale.Engine.Failure.compensate_or_fail flowscale.Engine.Failure.dead_letter
    flowscale.Engine.Failure.fail_workflow flowscale.Engine.Failure.failure_body
    flowscale.Engine.Failure.give_up flowscale.Engine.Failure.max_attempts
    flowscale.Engine.Failure.report_activity_failure flowscale.Engine.Failure.retry
    flowscale.Engine.Failure.retry_tier flowscale.Engine.Failure.schedule_retry
    flowscale.Engine.Failure.shift_one flowscale.Engine.Failure.step_for
    flowscale.Engine.Success.advance flowscale.Engine.Success.after_success
    flowscale.Engine.Success.begin_compensation flowscale.Engine.Success.compensate
    flowscale.Engine.Success.finish_compensation flowscale.Engine.Success.finish_execution
    flowscale.Engine.Success.following flowscale.Engine.Success.report_activity_success
    flowscale.Engine.Success.schedule_step flowscale.Engine.Success.success_body
    flowscale.Format.idempotency_key flowscale.Format.show
    flowscale.Repository.ExecutionRepo.complete_activity
    flowscale.Repository.ExecutionRepo.complete_execution
    flowscale.Repository.ExecutionRepo.compensated_execution
    flowscale.Repository.ExecutionRepo.dead_letter_activity
    flowscale.Repository.ExecutionRepo.fail_activity
    flowscale.Repository.ExecutionRepo.fail_execution
    flowscale.Repository.ExecutionRepo.schedule_next_activity
    flowscale.Repository.ExecutionRepo.start_compensating
    flowscale.Repository.ExecutionRepo.create_execution flowscale.Runtime.◌>>=◌
    flowscale.Engine.Start.start_workflow flowscale.Engine.Start.start_with
    flowscale.Engine.Start.create_first flowscale.Tests.Scenario.started
    flowscale.Tests.Scenario.env
machine = tt
