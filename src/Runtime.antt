-- ===== src/Runtime.antt =====
-- What a process of the system runs on: the PostgreSQL tables (migrations/), the messages handed to
-- RabbitMQ, the advisory locks, the Prometheus counters, and the answers of the outside.
-- Every call that leaves the process takes the next answer of `Env`: the n-th call finds the
-- database down or up, the clock at some time, and a uuid of its own.
pub mod Keeps
use flowscale.Prelude.{ℕ, suc, String, Option, none, some, List, ◌∷◌, Bool, true, false}
use flowscale.Models.{
  ℤ, ExecutionStatus, ActivityExecution, WorkflowEvent, OutboxMessage, ActivityTaskMessage,
  ActivityResultMessage, Schedule, User,
}

-- The rows of `workflows` and of `activities`; a nullable column is an `Option`.
pub record WorkflowRow : Type 0 where
  pub id : String
  pub name : String
  pub created_at : ℕ
  pub updated_at : ℕ

pub record ActivityRow : Type 0 where
  pub id : String
  pub workflow_id : String
  pub name : String
  pub compensation_activity_name : Option String
  pub retry_max_attempts : Option ℤ
  pub retry_backoff_strategy : Option String
  pub retry_initial_interval : Option String
  pub retry_backoff_coefficient : Option ℤ
  pub timeout : Option String
  pub position : ℕ

pub record ExecutionRow : Type 0 where
  pub id : String
  pub workflow_id : String
  pub status : ExecutionStatus
  pub current_activity : String
  pub created_at : ℕ
  pub updated_at : ℕ

-- A row of `activity_executions`: the struct and the column that the struct leaves out.
pub record ActivityExecutionRow : Type 0 where
  pub act : ActivityExecution
  pub last_heartbeat_at : Option ℕ

pub record Db : Type 0 where
  pub workflows : List WorkflowRow
  pub activities : List ActivityRow
  pub executions : List ExecutionRow
  pub events : List WorkflowEvent
  pub activity_executions : List ActivityExecutionRow
  pub outbox : List OutboxMessage
  pub schedules : List Schedule
  pub users : List User

-- A message handed to the broker, by the exchange that it goes to.
pub data Published : Type 0 where
  to_workflow : String → ActivityTaskMessage → Published
  to_retry : String → ℤ → ActivityTaskMessage → Published
  to_dlq : String → ActivityTaskMessage → Published
  to_results : ActivityResultMessage → Published
  to_heartbeat : String → String → Published

pub record Metrics : Type 0 where
  pub workflows_started : ℕ
  pub workflows_completed : ℕ
  pub workflows_failed : ℕ

pub record World : Type 0 where
  pub db : Db
  pub broker : List Published
  pub locks : List ℤ
  pub metrics : Metrics
  pub calls : ℕ
  pub shipment_down : Bool  -- the file that DemoHandler creates and removes

-- What is not under this repository: google/uuid, the clock, the failures of PostgreSQL and
-- RabbitMQ, whether pg_try_advisory_lock is granted, the order that PostgreSQL gives rows under
-- ORDER BY completed_at, robfig/cron, and the duration syntax of the `time` package.
pub record Env : Type 0 where
  pub uuid : ℕ → String
  pub now : ℕ → ℕ
  pub db_fails : ℕ → Bool
  pub mq_fails : ℕ → Bool
  pub lock_granted : ℕ → Bool
  pub by_completed_at : List ActivityExecution → List ActivityExecution
  pub next_cron : String → Option (ℕ → ℕ)
  pub parse_duration : String → Option ℤ

pub data Error : Type 0 where
  db_error mq_error no_rows workflow_not_found unique_violation foreign_key_violation : Error
  out_of_range not_dead_lettered not_failed heartbeat_rejected : Error
  execution_not_found schedule_not_found bad_payload : Error
  unknown_activity no_failed_compensation : String → Error
  already : ExecutionStatus → Error

pub data Result {ℓ} (A : Type ℓ) : Type ℓ where
  ok : A → Result A
  err : Error → Result A

-- A Go function that returns an error beside its value: what it changed before it failed stays.
abbrev pub M : Type 0 → Type 0
M A = World → Result A × World

abbrev pub continue : {A B : Type 0} → Result A → (A → M B) → M B
continue (ok a) f w = f a w
continue (err e) f w = (err e, w)

abbrev pub tick : World → World
tick w = record w { calls = suc w.calls }

unfoldable pub new_id : Env → M String
new_id env w = (ok (env.uuid w.calls), tick w)

unfoldable pub time_now : Env → M ℕ
time_now env w = (ok (env.now w.calls), tick w)

abbrev answer : {A : Type 0} → Bool → Result A → World → Result A × World
answer true r w = (err db_error, w)
answer false r w = (r, w)

-- A query reads the tables, or fails.
unfoldable pub query : {A : Type 0} → Env → (Db → Result A) → M A
query env q w = answer (env.db_fails w.calls) (q w.db) (tick w)

abbrev pub commit : Result Db → World → Result (Unit {0}) × World
commit (ok db) w = (ok tt, record w { db = db })
commit (err e) w = (err e, w)

abbrev pub attempt_commit : Bool → Result Db → World → Result (Unit {0}) × World
attempt_commit true r w = (err db_error, w)
attempt_commit false r w = commit r w

-- A transaction takes effect whole at its commit, or the deferred Rollback leaves the tables as
-- they were. `body` is given the clock: the readings within one transaction are taken as one.
unfoldable pub tx : Env → (ℕ → Db → Result Db) → M (Unit {0})
tx env body w = attempt_commit (env.db_fails w.calls) (body (env.now w.calls) w.db) (tick w)

abbrev send : Bool → Published → World → Result (Unit {0}) × World
send true m w = (err mq_error, w)
send false m w = (ok tt, record w { broker = m ∷ w.broker })

unfoldable pub publish : Env → Published → M (Unit {0})
publish env m w = send (env.mq_fails w.calls) m (tick w)

unfoldable pub count_metric : (Metrics → Metrics) → M (Unit {0})
count_metric f w = (ok tt, record w { metrics = f w.metrics })

unfoldable pub pure : {A : Type 0} → A → M A
pure a w = (ok a, w)

unfoldable pub raise : {A : Type 0} → Error → M A
raise e w = (err e, w)

unfoldable pub or_raise : {A : Type 0} → Option A → Error → M A
unfolding pure raise
or_raise none e = raise e
or_raise (some a) e = pure a

-- Opening the bind opens every primitive action too.
infixl 5 ◌>>=◌ ◌>>◌
unfoldable pub ◌>>=◌ : {A B : Type 0} → M A → (A → M B) → M B
unfolding pure raise or_raise new_id time_now query tx publish count_metric
◌>>=◌ m f w = let (r, w') = m w in continue r f w'

abbrev pub ◌>>◌ : {A B : Type 0} → M A → M B → M B
m >> n = m >>= λ _. n
