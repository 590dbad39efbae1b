-- ===== src/Repository/Sql.antt =====
-- The SQL statements of internal/repository/execution_repo.go, each on the table that it names,
-- with the constraints of migrations/ that a statement can violate: the primary keys, the UNIQUE
-- idempotency key, the foreign keys to `workflow_executions` and `workflows`, and the range of the
-- INT column `tier`.
use flowscale.Prelude.{
  ℕ, ◌^◌, String, Option, none, some, [], ◌∷◌, ◌++◌, Bool, ltb, ◌==◌, any, update, if◌then◌else◌,
}
use flowscale.Models.{ℤ, pos, negsuc, WorkflowEvent, ActivityExecution, OutboxMessage}
use flowscale.Runtime.{
  Db, WorkflowRow, ExecutionRow, ActivityExecutionRow, Result, ok, err, unique_violation,
  foreign_key_violation, out_of_range,
}

infixl 5 ◌>>=◌
abbrev pub ◌>>=◌ : {A B : Type 0} → Result A → (A → Result B) → Result B
ok a >>= f = f a
err e >>= f = err e

abbrev pub has_workflow_id : String → WorkflowRow → Bool
has_workflow_id id row = row.id == id

abbrev pub has_execution_id : String → ExecutionRow → Bool
has_execution_id id row = row.id == id

abbrev pub has_activity_id : String → ActivityExecutionRow → Bool
has_activity_id id row = row.act.id == id

abbrev pub has_key : String → ActivityExecutionRow → Bool
has_key key row = row.act.idempotency_key == key

abbrev pub has_event_id : String → WorkflowEvent → Bool
has_event_id id e = e.id == id

abbrev pub has_outbox_id : String → OutboxMessage → Bool
has_outbox_id id m = m.id == id

-- INSERT INTO workflow_executions
unfoldable pub insert_execution : ExecutionRow → Db → Result Db
insert_execution row db =
    if any (has_execution_id row.id) db.executions
    then err unique_violation
    else if any (has_workflow_id row.workflow_id) db.workflows
    then ok (record db { executions = db.executions ++ row ∷ [] })
    else err foreign_key_violation

-- INSERT INTO workflow_events
unfoldable pub insert_event : WorkflowEvent → Db → Result Db
insert_event event db =
    if any (has_event_id event.id) db.events
    then err unique_violation
    else if any (has_execution_id event.execution_id) db.executions
    then ok (record db { events = db.events ++ event ∷ [] })
    else err foreign_key_violation

abbrev pub fresh_row : ℕ → ActivityExecution → ActivityExecutionRow
fresh_row now act = record { act = act; last_heartbeat_at = some now }

-- INSERT INTO activity_executions, with last_heartbeat_at = time.Now()
unfoldable pub insert_activity : ℕ → ActivityExecution → Db → Result Db
insert_activity now act db =
    if any (has_activity_id act.id) db.activity_executions
    then err unique_violation
    else if any (has_key act.idempotency_key) db.activity_executions
    then err unique_violation
    else if any (has_execution_id act.execution_id) db.executions
    then ok (record db { activity_executions = db.activity_executions ++ fresh_row now act ∷ [] })
    else err foreign_key_violation

-- The column `tier` is an INT of 32 bits.
abbrev pub fits_int32 : ℤ → Bool
fits_int32 (pos n) = ltb n (2 ^ 31)
fits_int32 (negsuc n) = ltb n (2 ^ 31)

-- INSERT INTO outbox_messages; created_at is the default of the column, the time of the statement.
unfoldable pub insert_outbox : ℕ → OutboxMessage → Db → Result Db
insert_outbox now msg db =
    if any (has_outbox_id msg.id) db.outbox
    then err unique_violation
    else if fits_int32 msg.tier
    then ok (record db { outbox = db.outbox ++ record msg { created_at = now } ∷ [] })
    else err out_of_range

abbrev pub insert_optional_outbox : ℕ → Option OutboxMessage → Db → Result Db
insert_optional_outbox now none db = ok db
insert_optional_outbox now (some msg) db = insert_outbox now msg db

-- UPDATE workflow_executions SET … WHERE id = $n
unfoldable pub update_execution : String → (ExecutionRow → ExecutionRow) → Db → Db
update_execution id set db = record db {
  executions = update (has_execution_id id) set db.executions;
}

-- UPDATE activity_executions SET … WHERE id = $n
unfoldable pub update_activity : String → (ActivityExecution → ActivityExecution) → Db → Db
update_activity id set db = record db {
  activity_executions =
      update (has_activity_id id) (λ row. record row { act = set row.act }) db.activity_executions;
}
