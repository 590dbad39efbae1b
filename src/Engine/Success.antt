-- ===== src/Engine/Success.antt =====
-- `ReportActivitySuccess` of internal/engine/engine.go.
use flowscale.Prelude.{◌+◌, String, Option, none, some, List, [], ◌∷◌, ◌==◌, if◌then◌else◌}
use flowscale.Models.{
  pos, Activity, Workflow, is_completed, is_compensating, empty, activity, activity_completed,
  activity_scheduled, workflow_completed, compensation_started, compensation_completed,
}
use flowscale.Runtime.{Env, Metrics, M, ◌>>=◌, ◌>>◌, pure, raise, count_metric, unknown_activity}
use flowscale.Repository.ExecutionRepo.{
  complete_activity, schedule_next_activity, complete_execution, start_compensating,
  compensated_execution,
}
use flowscale.Repository.ExecutionQueries.{
  get_execution, get_activity_execution, list_activity_executions,
}
use flowscale.Repository.WorkflowRepo.{get_workflow}
use flowscale.Engine.Build.{new_event, new_activity, new_outbox, task_of}
use flowscale.Engine.Compensation.{determine_next_compensation}
use flowscale.Engine.Lock.{with_lock}

-- What the loop over `wf.Activities` finds: nothing of that name, the last step, or a next one.
pub data Following : Type 0 where
  not_found last : Following
  next : Activity → Following

abbrev after_step : List Activity → Following
after_step [] = last
after_step (act ∷ acts) = next act

unfoldable pub following : String → List Activity → Following
following name [] = not_found
following name (act ∷ acts) =
    let rest = following name acts in if act.name == name then after_step acts else rest

abbrev pub inc_completed : Metrics → Metrics
inc_completed m = record m { workflows_completed = m.workflows_completed + 1 }

abbrev pub inc_failed : Metrics → Metrics
inc_failed m = record m { workflows_failed = m.workflows_failed + 1 }

-- A step's first attempt: the activity, its event and its outbox message, in one transaction.
unfoldable pub schedule_step : Env → String → String → M Unit
schedule_step env execution_id name = do
  act ← new_activity env execution_id name 1
  event ← new_event env execution_id activity_scheduled (activity name)
  msg ← new_outbox env (pos 0) (task_of act)
  schedule_next_activity env execution_id act event (some msg)

unfoldable pub finish_execution : Env → String → M Unit
finish_execution env execution_id = do
  event ← new_event env execution_id workflow_completed empty
  complete_execution env execution_id event
  count_metric inc_completed

unfoldable pub advance : Env → String → String → Following → M Unit
advance env execution_id name not_found = raise (unknown_activity name)
advance env execution_id name last = finish_execution env execution_id
advance env execution_id name (next act) = schedule_step env execution_id act.name

-- A compensation's first attempt, which also sets the status COMPENSATING.
unfoldable pub begin_compensation : Env → String → String → M Unit
begin_compensation env execution_id name = do
  act ← new_activity env execution_id name 1
  event ← new_event env execution_id compensation_started (activity name)
  msg ← new_outbox env (pos 0) (task_of act)
  start_compensating env execution_id act event (some msg)

unfoldable pub finish_compensation : Env → String → M Unit
finish_compensation env execution_id = do
  event ← new_event env execution_id compensation_completed empty
  compensated_execution env execution_id event
  count_metric inc_failed

unfoldable pub compensate : Env → String → Option Activity → M Unit
compensate env execution_id (some comp) = begin_compensation env execution_id comp.name
compensate env execution_id none = finish_compensation env execution_id

abbrev continue_compensation : Env → String → Workflow → M Unit
continue_compensation env execution_id wf = do
  acts ← list_activity_executions env execution_id
  compensate env execution_id (determine_next_compensation wf acts)

-- The part behind the transaction that completes the activity.
unfoldable pub after_success : Env → String → String → M Unit
after_success env execution_id name = do
  exec ← get_execution env execution_id
  wf ← get_workflow env exec.workflow_id
  (if is_compensating exec.status
      then continue_compensation env execution_id wf
      else advance env execution_id name (following name wf.activities))

-- A report on a completed activity changes nothing.
unfoldable pub success_body : Env → String → String → String → M Unit
success_body env activity_id execution_id name = do
  act ← get_activity_execution env activity_id
  if is_completed act.status then pure tt else do
    event ← new_event env execution_id activity_completed (activity name)
    complete_activity env activity_id event
    after_success env execution_id name

unfoldable pub report_activity_success : Env → String → String → String → M Unit
report_activity_success env activity_id execution_id name =
    with_lock env execution_id (success_body env activity_id execution_id name)
