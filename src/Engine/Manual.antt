-- ===== src/Engine/Manual.antt =====
-- What an operator asks of internal/engine/engine.go: RetryDeadLetteredActivity, RetryCompensation
-- and CancelExecution.
pub mod Once
pub mod Cancel
use flowscale.Prelude.{
  ◌+◌, String, Option, none, some, Bool, true, false, not, ◌&&◌, find, if◌then◌else◌,
}
use flowscale.Models.{
  pos, Workflow, ActivityExecution, ExecutionStatus, EventType, is_failed_execution,
  activity_scheduled, compensation_started, workflow_failed, manual_retry, reason,
}
use flowscale.Runtime.{
  Env, M, ok, err, ◌>>=◌, pure, raise, or_raise, not_dead_lettered, already, not_failed,
  no_failed_compensation,
}
use flowscale.Repository.ExecutionRepo.{retry_activity, start_compensating, cancel_execution}
use flowscale.Repository.ExecutionQueries.{
  get_execution, get_activity_execution, list_activity_executions,
}
use flowscale.Repository.WorkflowRepo.{get_workflow}
use flowscale.Engine.Build.{new_event, new_activity, new_outbox, task_of}
use flowscale.Engine.Compensation.{is_normal}
use flowscale.Engine.Lock.{with_lock}

abbrev pub is_dead_lettered : ActivityExecution → Bool
is_dead_lettered a = elim a.dead_lettered_at [ none ↦ false | some _ ↦ true ]

-- COMPENSATED, CANCELLED and COMPLETED executions are not resumed.
abbrev pub is_closed : ExecutionStatus → Bool
is_closed ExecutionStatus.compensated = true
is_closed ExecutionStatus.cancelled = true
is_closed ExecutionStatus.completed = true
is_closed _ = false

-- An error of a query as `none`, for a caller that goes on.
abbrev pub try : {A : Type 0} → M A → M (Option A)
try m w = let (r, w') = m w in elim r [ ok a ↦ (ok (some a), w') | err e ↦ (ok none, w') ]

abbrev pub or_try : {A : Type 0} → Option A → M A → M (Option A)
or_try (some a) m = pure (some a)
or_try none m = try m

-- Without a definition the activity counts as a compensation.
abbrev is_comp : String → Option Workflow → Bool
is_comp name none = true
is_comp name (some wf) = not (is_normal wf name)

abbrev retry_event : Bool → EventType
retry_event comp = if comp then compensation_started else activity_scheduled

abbrev pub retry_status : Bool → ExecutionStatus
retry_status comp = if comp then ExecutionStatus.compensating else ExecutionStatus.running

-- The next attempt of a dead-lettered activity, with its event and its outbox message.
unfoldable pub resume_activity : Env → ActivityExecution → Bool → M Unit
resume_activity env act comp = do
  let next_attempt = act.attempt + 1
  next ← new_activity env act.execution_id act.activity_name next_attempt
  event ←
      new_event env act.execution_id (retry_event comp)
        (manual_retry act.activity_name next_attempt)
  msg ← new_outbox env (pos 0) (task_of next)
  retry_activity env act.execution_id (retry_status comp) next event (some msg)

-- It takes no lock. It looks for the definition under the execution's id first.
unfoldable pub retry_dead_lettered_activity : Env → String → M Unit
retry_dead_lettered_activity env activity_id = do
  act ← get_activity_execution env activity_id
  if not (is_dead_lettered act) then raise not_dead_lettered else do
    exec ← get_execution env act.execution_id
    if is_closed exec.status then raise (already exec.status) else do
      first ← try (get_workflow env act.execution_id)
      wf ← or_try first (get_workflow env exec.workflow_id)
      resume_activity env act (is_comp act.activity_name wf)

-- A dead-lettered activity that is no step of the definition.
abbrev pub is_failed_comp : Workflow → ActivityExecution → Bool
is_failed_comp wf act = is_dead_lettered act && not (is_normal wf act.activity_name)

unfoldable pub resume_compensation : Env → String → ActivityExecution → M Unit
resume_compensation env execution_id comp = do
  let next_attempt = comp.attempt + 1
  next ← new_activity env execution_id comp.activity_name next_attempt
  event ←
      new_event env execution_id compensation_started (manual_retry comp.activity_name next_attempt)
  msg ← new_outbox env (pos 0) (task_of next)
  start_compensating env execution_id next event (some msg)

unfoldable pub compensation_body : Env → String → M Unit
compensation_body env execution_id = do
  exec ← get_execution env execution_id
  if not (is_failed_execution exec.status) then raise not_failed else do
    acts ← list_activity_executions env execution_id
    wf ← get_workflow env exec.workflow_id
    comp ← or_raise (find (is_failed_comp wf) acts) (no_failed_compensation execution_id)
    resume_compensation env execution_id comp

unfoldable pub retry_compensation : Env → String → M Unit
retry_compensation env execution_id =
    with_lock env execution_id (compensation_body env execution_id)

unfoldable pub cancel : Env → String → M Unit
cancel env execution_id = do
  event ← new_event env execution_id workflow_failed (reason "cancelled by user")
  cancel_execution env execution_id event
