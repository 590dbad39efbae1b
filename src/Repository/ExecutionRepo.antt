-- ===== src/Repository/ExecutionRepo.antt =====
-- internal/repository/execution_repo.go: the methods that write. Each is one transaction: BeginTx,
-- the statements in order, Commit, and the deferred Rollback on any error.
use flowscale.Prelude.{
  ℕ, String, Option, none, some, Bool, true, false, ◌==◌, any, update, delete, ◌&&◌, if◌then◌else◌,
}
use flowscale.Models.{
  ExecutionStatus, ActivityStatus, WorkflowExecution, WorkflowEvent, ActivityExecution,
  OutboxMessage, is_pending, activity_scheduled, activity,
}
use flowscale.Runtime.{
  Env, Db, ExecutionRow, ActivityExecutionRow, M, Result, ok, err, tx, tick, heartbeat_rejected,
  execution_not_found,
}
use flowscale.Repository.Sql.{
  ◌>>=◌, has_execution_id, has_outbox_id, insert_execution, insert_event, insert_activity,
  insert_optional_outbox, update_execution, update_activity,
}

abbrev pub set_status : ExecutionStatus → ℕ → ExecutionRow → ExecutionRow
set_status s now row = record row { status = s; updated_at = now }

abbrev pub set_current : String → ℕ → ExecutionRow → ExecutionRow
set_current name now row = record row { current_activity = name; updated_at = now }

abbrev pub set_both : ExecutionStatus → String → ℕ → ExecutionRow → ExecutionRow
set_both s name now row = record row { status = s; current_activity = name; updated_at = now }

abbrev pub first_event : String → ActivityExecution → ℕ → WorkflowEvent
first_event event_id act now = record {
  id = event_id;
  execution_id = act.execution_id;
  event_type = activity_scheduled;
  payload = activity act.activity_name;
  timestamp = now;
}

-- The rows of CreateExecution for the first activity: the activity and its scheduling event.
abbrev pub insert_first : String → ℕ → Option ActivityExecution → Db → Result Db
insert_first event_id now none db = ok db
insert_first event_id now (some act) db = do
  db₁ ← insert_activity now act db
  insert_event (first_event event_id act now) db₁

abbrev pub row_of : WorkflowExecution → ExecutionRow
row_of exec = record {
  id = exec.id;
  workflow_id = exec.workflow_id;
  status = exec.status;
  current_activity = exec.current_activity;
  created_at = exec.created_at;
  updated_at = exec.updated_at;
}

unfoldable pub create_execution :
    Env
    → WorkflowExecution
    → WorkflowEvent
    → Option ActivityExecution
    → Option OutboxMessage
    → M Unit
create_execution env exec event first msg w =
    tx env
      (λ now db. do
        db₁ ← insert_execution (row_of exec) db
        db₂ ← insert_event event db₁
        db₃ ← insert_first (env.uuid w.calls) now first db₂
        insert_optional_outbox now msg db₃)
      (tick w)

unfoldable pub complete_activity : Env → String → WorkflowEvent → M Unit
complete_activity env activity_id event = tx env λ now db. insert_event event (
    update_activity activity_id
      (λ a. record a { status = ActivityStatus.completed; completed_at = some now }) db)

unfoldable pub fail_activity : Env → String → WorkflowEvent → M Unit
fail_activity env activity_id event = tx env λ now db.
    insert_event event
      (update_activity activity_id (λ a. record a { status = ActivityStatus.failed }) db)

unfoldable pub dead_letter_activity : Env → String → WorkflowEvent → Option OutboxMessage → M Unit
dead_letter_activity env activity_id event msg = tx env λ now db. do
  db₁ ← insert_event event (
      update_activity activity_id
        (λ a. record a { status = ActivityStatus.failed; dead_lettered_at = some now }) db)
  insert_optional_outbox now msg db₁

-- The statements that RetryActivity, ScheduleNextActivity and StartCompensating share, after their
-- UPDATE of the execution.
abbrev pub insert_next :
    ActivityExecution → WorkflowEvent → Option OutboxMessage → ℕ → Db → Result Db
insert_next next event msg now db = do
  db₁ ← insert_activity now next db
  db₂ ← insert_event event db₁
  insert_optional_outbox now msg db₂

unfoldable pub retry_activity :
    Env
    → String
    → ExecutionStatus
    → ActivityExecution
    → WorkflowEvent
    → Option OutboxMessage
    → M Unit
retry_activity env execution_id status next event msg = tx env λ now db.
    insert_next next event msg now
      (update_execution execution_id (set_both status next.activity_name now) db)

unfoldable pub schedule_next_activity :
    Env → String → ActivityExecution → WorkflowEvent → Option OutboxMessage → M Unit
schedule_next_activity env execution_id next event msg = tx env λ now db.
    insert_next next event msg now
      (update_execution execution_id (set_current next.activity_name now) db)

unfoldable pub complete_execution : Env → String → WorkflowEvent → M Unit
complete_execution env execution_id event = tx env λ now db.
    insert_event event (update_execution execution_id (set_status ExecutionStatus.completed now) db)

unfoldable pub fail_execution : Env → String → WorkflowEvent → M Unit
fail_execution env execution_id event = tx env λ now db.
    insert_event event (update_execution execution_id (set_status ExecutionStatus.failed now) db)

-- WHERE … status NOT IN (COMPLETED, FAILED, CANCELLED)
abbrev pub cancellable : ExecutionStatus → Bool
cancellable ExecutionStatus.completed = false
cancellable ExecutionStatus.failed = false
cancellable ExecutionStatus.cancelled = false
cancellable _ = true

unfoldable pub cancel_execution : Env → String → WorkflowEvent → M Unit
cancel_execution env execution_id event = tx env λ now db. insert_event event (
    update_execution execution_id
      (λ row. if cancellable row.status then set_status ExecutionStatus.cancelled now row else row)
      db)

unfoldable pub start_compensating :
    Env → String → ActivityExecution → WorkflowEvent → Option OutboxMessage → M Unit
start_compensating env execution_id next event msg = tx env λ now db.
    insert_next next event msg now (
      update_execution execution_id (set_both ExecutionStatus.compensating next.activity_name now)
        db)

unfoldable pub compensated_execution : Env → String → WorkflowEvent → M Unit
compensated_execution env execution_id event = tx env λ now db.
    insert_event event
      (update_execution execution_id (set_status ExecutionStatus.compensated now) db)

-- WHERE id = $2 AND status = PENDING; an UPDATE that meets no row is an error of the method.
abbrev pub heartbeat_row : String → ActivityExecutionRow → Bool
heartbeat_row id row = row.act.id == id && is_pending row.act.status

unfoldable pub record_heartbeat : Env → String → M Unit
record_heartbeat env activity_id = tx env λ now db.
    if any (heartbeat_row activity_id) db.activity_executions
    then ok (record db {
      activity_executions =
          update (heartbeat_row activity_id) (λ row. record row { last_heartbeat_at = some now })
            db.activity_executions;
    })
    else err heartbeat_rejected

unfoldable pub delete_outbox_message : Env → String → M Unit
delete_outbox_message env id =
    tx env λ now db. ok (record db { outbox = delete (has_outbox_id id) db.outbox })

-- The DELETE cascades to the events and the activities of the execution.
unfoldable pub delete_execution : Env → String → M Unit
delete_execution env id = tx env λ now db.
    if any (has_execution_id id) db.executions
    then ok (record db {
      executions = delete (has_execution_id id) db.executions;
      events = delete (λ e. e.execution_id == id) db.events;
      activity_executions = delete (λ r. r.act.execution_id == id) db.activity_executions;
    })
    else err execution_not_found
