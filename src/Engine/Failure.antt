-- ===== src/Engine/Failure.antt =====
-- `ReportActivityFailure` of internal/engine/engine.go.
pub mod Tiers
use flowscale.Prelude.{
  ℕ, suc, ◌+◌, ◌-◌, ◌^◌, String, Option, none, some, List, [], ◌∷◌, Bool, true, false, ltb, not,
  ◌&&◌, ◌==◌, find, if◌then◌else◌,
}
use flowscale.Models.{
  ℤ, pos, negsuc, RetryPolicy, Activity, Workflow, WorkflowExecution, ActivityExecution,
  ExecutionStatus, is_failed, is_compensating, activity, attempt_of, activity_failed,
  activity_scheduled, workflow_failed,
}
use flowscale.Runtime.{Env, M, ◌>>=◌, ◌>>◌, pure, raise, or_raise, unknown_activity}
use flowscale.Repository.ExecutionRepo.{
  fail_activity, dead_letter_activity, schedule_next_activity, fail_execution,
}
use flowscale.Repository.ExecutionQueries.{
  get_execution, get_activity_execution, list_activity_executions,
}
use flowscale.Repository.WorkflowRepo.{get_workflow}
use flowscale.Engine.Build.{new_event, new_activity, new_outbox, task_of}
use flowscale.Engine.Compensation.{determine_next_compensation, step_named, or_else}
use flowscale.Engine.Success.{begin_compensation}
use flowscale.Engine.Lock.{with_lock}

-- The step of that name, else the first step that names it as its compensation.
unfoldable pub step_for : Workflow → String → Option Activity
step_for wf name = or_else (step_named wf name) (find (λ a. a.compensation == name) wf.activities)

abbrev limit_of : ℤ → ℕ
limit_of (pos n) = if ltb 1 n then n else 1
limit_of (negsuc n) = 1

unfoldable pub max_attempts : Activity → ℕ
max_attempts wa = elim wa.retry_policy [ none ↦ 1 | some p ↦ limit_of p.max_attempts ]

-- `1 << k` at type int: the sign bit at 63, and nothing left above.
unfoldable pub shift_one : ℕ → ℤ
shift_one k = if ltb k 63 then pos (2 ^ k) else if ltb k 64 then negsuc (2 ^ 63 - 1) else pos 0

abbrev cap_tier : ℤ → ℤ
cap_tier (pos n) = if ltb 16 n then pos 16 else pos n
cap_tier (negsuc n) = negsuc n

-- The attempt that follows is 2 or more, so the difference is exact.
unfoldable pub retry_tier : ℕ → ℤ
unfolding shift_one
retry_tier next_attempt = cap_tier (shift_one (next_attempt - 2))

unfoldable pub schedule_retry : Env → String → String → ℕ → M Unit
schedule_retry env execution_id name next_attempt = do
  act ← new_activity env execution_id name next_attempt
  event ← new_event env execution_id activity_scheduled (attempt_of name next_attempt)
  msg ← new_outbox env (retry_tier next_attempt) (task_of act)
  schedule_next_activity env execution_id act event (some msg)

unfoldable pub retry : Env → String → String → String → ℕ → M Unit
retry env activity_id execution_id name attempt = do
  event ← new_event env execution_id activity_failed (activity name)
  fail_activity env activity_id event
  schedule_retry env execution_id name (attempt + 1)

unfoldable pub fail_workflow : Env → String → String → M Unit
fail_workflow env execution_id name = do
  event ← new_event env execution_id workflow_failed (activity name)
  fail_execution env execution_id event

-- The first compensation starts; a failure while compensating fails the execution.
unfoldable pub compensate_or_fail : Env → String → String → Bool → Option Activity → M Unit
compensate_or_fail env execution_id name compensating none = fail_workflow env execution_id name
compensate_or_fail env execution_id name compensating (some comp) =
    if compensating
    then fail_workflow env execution_id name
    else begin_compensation env execution_id comp.name

-- Tier -1 marks the message for the dead letter queue.
unfoldable pub dead_letter : Env → String → String → String → String → M Unit
dead_letter env activity_id execution_id name key = do
  msg ← new_outbox env (negsuc 0) (record {
    execution_id = execution_id;
    activity_id = activity_id;
    activity_name = name;
    idempotency_key = key;
  })
  event ← new_event env execution_id activity_failed (activity name)
  dead_letter_activity env activity_id event (some msg)

unfoldable pub give_up :
    Env → String → String → String → String → ExecutionStatus → Workflow → M Unit
give_up env activity_id execution_id name key status wf = do
  dead_letter env activity_id execution_id name key
  acts ← list_activity_executions env execution_id
  compensate_or_fail env execution_id name (is_compensating status)
      (determine_next_compensation wf acts)

-- A report on a failed activity changes nothing.
unfoldable pub failure_body : Env → String → String → String → Bool → M Unit
failure_body env activity_id execution_id name non_retryable = do
  act ← get_activity_execution env activity_id
  if is_failed act.status then pure tt else do
    exec ← get_execution env execution_id
    wf ← get_workflow env exec.workflow_id
    step ← or_raise (step_for wf name) (unknown_activity name)
    (if ltb act.attempt (max_attempts step) && not non_retryable
        then retry env activity_id execution_id name act.attempt
        else give_up env activity_id execution_id name act.idempotency_key exec.status wf)

unfoldable pub report_activity_failure : Env → String → String → String → Bool → M Unit
report_activity_failure env activity_id execution_id name non_retryable =
    with_lock env execution_id (failure_body env activity_id execution_id name non_retryable)
