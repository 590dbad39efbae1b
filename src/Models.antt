-- ===== src/Models.antt =====
-- internal/models: the structs that the packages exchange. A status is an enum of the constants
-- that the source declares; a time is a number of nanoseconds; a `*time.Time` is an `Option`; the
-- JSON text that an event or a message carries is kept as the value that it encodes.
use flowscale.Prelude.{ℕ, String, Option, List, Bool, true, false}

-- Go's int: `negsuc n` is -(n + 1).
pub data ℤ : Type 0 where
  pos : ℕ → ℤ
  negsuc : ℕ → ℤ

pub data ExecutionStatus : Type 0 where
  pending running completed failed compensating compensated cancelled : ExecutionStatus

pub data ActivityStatus : Type 0 where
  pending running completed failed retrying : ActivityStatus

pub data EventType : Type 0 where
  workflow_started workflow_completed workflow_failed : EventType
  activity_scheduled activity_completed activity_failed : EventType
  compensation_started compensation_completed : EventType

-- The JSON objects that the engine writes into `Payload`: `{}`, `{"activity": a}`,
-- `{"activity": a, "attempt": n}`, the same with `"manual_retry": true`, `{"reason": r}`.
pub data EventPayload : Type 0 where
  empty : EventPayload
  activity : String → EventPayload
  attempt_of : String → ℕ → EventPayload
  manual_retry : String → ℕ → EventPayload
  reason : String → EventPayload

pub record WorkflowExecution : Type 0 where
  pub id : String
  pub workflow_id : String
  pub workflow_name : String
  pub status : ExecutionStatus
  pub current_activity : String
  pub created_at : ℕ
  pub updated_at : ℕ

pub record WorkflowEvent : Type 0 where
  pub id : String
  pub execution_id : String
  pub event_type : EventType
  pub payload : EventPayload
  pub timestamp : ℕ

pub record ActivityExecution : Type 0 where
  pub id : String
  pub execution_id : String
  pub activity_name : String
  pub attempt : ℕ
  pub status : ActivityStatus
  pub idempotency_key : String
  pub started_at : Option ℕ
  pub completed_at : Option ℕ
  pub dead_lettered_at : Option ℕ

pub record ActivityTaskMessage : Type 0 where
  pub execution_id : String
  pub activity_id : String
  pub activity_name : String
  pub idempotency_key : String

pub record ActivityResultMessage : Type 0 where
  pub execution_id : String
  pub activity_id : String
  pub activity_name : String
  pub success : Bool
  pub error : String
  pub non_retryable : Bool

-- `Payload` holds the marshalled task, or bytes that do not unmarshal to one.
pub record OutboxMessage : Type 0 where
  pub id : String
  pub topic : String
  pub tier : ℤ
  pub payload : Option ActivityTaskMessage
  pub created_at : ℕ

pub record RetryPolicy : Type 0 where
  pub max_attempts : ℤ
  pub backoff_strategy : String
  pub initial_interval : String
  pub backoff_coefficient : ℤ  -- a float64 in the source, here in fixed point

pub record Activity : Type 0 where
  pub name : String
  pub compensation : String
  pub retry_policy : Option RetryPolicy
  pub timeout : String

pub record Workflow : Type 0 where
  pub id : String
  pub name : String
  pub activities : List Activity
  pub created_at : ℕ
  pub updated_at : ℕ

pub data ScheduleType : Type 0 where
  once delayed recurring : ScheduleType
  other : String → ScheduleType

pub data ScheduleStatus : Type 0 where
  active finished paused : ScheduleStatus

pub record Schedule : Type 0 where
  pub id : String
  pub workflow_id : String
  pub schedule_type : ScheduleType
  pub run_at : Option ℕ
  pub cron_expression : String
  pub interval : String
  pub next_run_at : ℕ
  pub status : ScheduleStatus
  pub created_at : ℕ
  pub updated_at : ℕ

-- internal/models/user.go
pub record User : Type 0 where
  pub id : String
  pub username : String
  pub password_hash : String
  pub created_at : ℕ

pub record AuthRequest : Type 0 where
  pub username : String
  pub password : String

pub record AuthResponse : Type 0 where
  pub token : String
  pub user : User

-- The text of a status, as its column holds it.
unfoldable pub status_text : ExecutionStatus → String
status_text ExecutionStatus.pending = "PENDING"
status_text ExecutionStatus.running = "RUNNING"
status_text ExecutionStatus.completed = "COMPLETED"
status_text ExecutionStatus.failed = "FAILED"
status_text ExecutionStatus.compensating = "COMPENSATING"
status_text ExecutionStatus.compensated = "COMPENSATED"
status_text ExecutionStatus.cancelled = "CANCELLED"

-- Comparisons of a status with a constant, as the `==` of the source.
abbrev pub is_completed : ActivityStatus → Bool
is_completed ActivityStatus.completed = true
is_completed _ = false

abbrev pub is_failed : ActivityStatus → Bool
is_failed ActivityStatus.failed = true
is_failed _ = false

abbrev pub is_pending : ActivityStatus → Bool
is_pending ActivityStatus.pending = true
is_pending _ = false

abbrev pub is_compensating : ExecutionStatus → Bool
is_compensating ExecutionStatus.compensating = true
is_compensating _ = false

abbrev pub is_failed_execution : ExecutionStatus → Bool
is_failed_execution ExecutionStatus.failed = true
is_failed_execution _ = false
