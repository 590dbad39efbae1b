-- ===== src/Invariant/Inversion.antt =====
-- What a successful INSERT has tested, and the row that it has added.
use flowscale.Prelude.{ℕ, ◌≡◌, true, false, some, [], ◌∷◌, ◌++◌, arith, any}
use flowscale.Models.{WorkflowEvent, ActivityExecution, OutboxMessage}
use flowscale.Runtime.{Db, ExecutionRow, ok}
use flowscale.Repository.Sql.{
  has_execution_id, has_activity_id, has_event_id, has_outbox_id, has_key, fresh_row, fits_int32,
  insert_event, insert_activity, insert_outbox, insert_execution, has_workflow_id,
}
use flowscale.Repository.ExecutionRepo.{insert_next}
use flowscale.Engine.Stable.Writes.{>>=-eq-ok}

pub record EventInserted (e : WorkflowEvent) (db db' : Db) : Type 0 where
  pub new_id : any (has_event_id e.id) db.events ≡ false
  pub known : any (has_execution_id e.execution_id) db.executions ≡ true
  pub result : db' ≡ record db { events = db.events ++ e ∷ [] }

pub insert_event-inserted :
    (e : WorkflowEvent) (db db' : Db) → insert_event e db ≡ ok db' → EventInserted e db db'
unfolding insert_event
insert_event-inserted e db db' h = ground arith

pub record ActivityInserted (now : ℕ) (act : ActivityExecution) (db db' : Db) : Type 0 where
  pub new_id : any (has_activity_id act.id) db.activity_executions ≡ false
  pub new_key : any (has_key act.idempotency_key) db.activity_executions ≡ false
  pub known : any (has_execution_id act.execution_id) db.executions ≡ true
  pub result :
      db' ≡ record db { activity_executions = db.activity_executions ++ fresh_row now act ∷ [] }

pub insert_activity-inserted :
    (now : ℕ) (act : ActivityExecution) (db db' : Db)
    → insert_activity now act db ≡ ok db'
    → ActivityInserted now act db db'
unfolding insert_activity
insert_activity-inserted now act db db' h = ground arith

pub record OutboxInserted (now : ℕ) (msg : OutboxMessage) (db db' : Db) : Type 0 where
  pub new_id : any (has_outbox_id msg.id) db.outbox ≡ false
  pub in_range : fits_int32 msg.tier ≡ true
  pub result : db' ≡ record db { outbox = db.outbox ++ record msg { created_at = now } ∷ [] }

pub insert_outbox-inserted :
    (now : ℕ) (msg : OutboxMessage) (db db' : Db)
    → insert_outbox now msg db ≡ ok db'
    → OutboxInserted now msg db db'
unfolding insert_outbox
insert_outbox-inserted now msg db db' h = ground arith

-- The three inserts of a new attempt, one after the other.
pub record NextInserted (act : ActivityExecution) (e : WorkflowEvent) (msg : OutboxMessage)
    (now : ℕ) (db db' : Db) : Type 0 where
  pub db₁ : Db
  pub db₂ : Db
  pub activity : ActivityInserted now act db db₁
  pub event : EventInserted e db₁ db₂
  pub outbox : OutboxInserted now msg db₂ db'

pub insert_next-inserted :
    (act : ActivityExecution) (e : WorkflowEvent) (msg : OutboxMessage) (now : ℕ) (db db' : Db)
    → insert_next act e (some msg) now db ≡ ok db'
    → NextInserted act e msg now db db'
insert_next-inserted act e msg now db db' h =
    let (db₁, p, q) = >>=-eq-ok (insert_activity now act db) _ h in
    let (db₂, r, s) = >>=-eq-ok (insert_event e db₁) _ q in
    record {
      db₁ = db₁;
      db₂ = db₂;
      activity = insert_activity-inserted now act db db₁ p;
      event = insert_event-inserted e db₁ db₂ r;
      outbox = insert_outbox-inserted now msg db₂ db' s;
    }

pub record ExecutionInserted (row : ExecutionRow) (db db' : Db) : Type 0 where
  pub new_id : any (has_execution_id row.id) db.executions ≡ false
  pub known : any (has_workflow_id row.workflow_id) db.workflows ≡ true
  pub result : db' ≡ record db { executions = db.executions ++ row ∷ [] }

pub insert_execution-inserted :
    (row : ExecutionRow) (db db' : Db)
    → insert_execution row db ≡ ok db'
    → ExecutionInserted row db db'
unfolding insert_execution
insert_execution-inserted row db db' h = ground arith
