-- ===== src/Engine/Build.antt =====
-- The records that the handlers of internal/engine/engine.go build before they write.
use flowscale.Prelude.{ℕ, String, none, some}
use flowscale.Models.{
  ℤ, ActivityStatus, EventType, EventPayload, WorkflowEvent, ActivityExecution, ActivityTaskMessage,
  OutboxMessage,
}
use flowscale.Runtime.{Env, M, ◌>>=◌, pure, new_id, time_now}
use flowscale.Format.{idempotency_key}

unfoldable pub new_event : Env → String → EventType → EventPayload → M WorkflowEvent
new_event env execution_id type payload = do
  id ← new_id env
  now ← time_now env
  pure (record {
    id = id;
    execution_id = execution_id;
    event_type = type;
    payload = payload;
    timestamp = now;
  })

-- An event whose time the caller has read.
unfoldable pub new_event_at : Env → String → EventType → EventPayload → ℕ → M WorkflowEvent
new_event_at env execution_id type payload now = do
  id ← new_id env
  pure (record {
    id = id;
    execution_id = execution_id;
    event_type = type;
    payload = payload;
    timestamp = now;
  })

unfoldable pub new_activity : Env → String → String → ℕ → M ActivityExecution
new_activity env execution_id name attempt = do
  id ← new_id env
  pure (record {
    id = id;
    execution_id = execution_id;
    activity_name = name;
    attempt = attempt;
    status = ActivityStatus.pending;
    idempotency_key = idempotency_key execution_id name attempt;
    started_at = none;
    completed_at = none;
    dead_lettered_at = none;
  })

abbrev pub task_of : ActivityExecution → ActivityTaskMessage
task_of act = record {
  execution_id = act.execution_id;
  activity_id = act.id;
  activity_name = act.activity_name;
  idempotency_key = act.idempotency_key;
}

-- The column created_at is filled by the INSERT.
unfoldable pub new_outbox : Env → ℤ → ActivityTaskMessage → M OutboxMessage
new_outbox env tier task = do
  id ← new_id env
  pure (record {
    id = id;
    topic = task.activity_name;
    tier = tier;
    payload = some task;
    created_at = 0;
  })
