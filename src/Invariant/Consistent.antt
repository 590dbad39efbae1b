-- ===== src/Invariant/Consistent.antt =====
-- The tables are consistent: ids and idempotency keys are unique, and every activity and every
-- event belongs to an execution that is there. Every handler keeps this.
use flowscale.Prelude.Predicates.{
  All, Distinct, All-append, All-map, All-update, Distinct-append, Distinct-update, any-false,
  any-append_known, any-update,
}
use flowscale.Prelude.{ℕ, ◌≡◌, ap, ◌∙◌, Bool, true, ◌==◌, List, [], ◌∷◌, String, any, update}
use flowscale.Models.{ExecutionStatus, WorkflowEvent, ActivityExecution, OutboxMessage}
use flowscale.Runtime.{Db, Published, ExecutionRow, ok}
use flowscale.Repository.Sql.{
  has_execution_id, insert_execution, update_execution, update_activity, fresh_row,
}
use flowscale.Engine.Stable.Writes.{Stable, Settles, Permitted}
use flowscale.Engine.Stable.Start.{StableStart}
use flowscale.Invariant.Inversion.{
  EventInserted, ActivityInserted, OutboxInserted, NextInserted, insert_event-inserted,
  insert_outbox-inserted, insert_next-inserted, insert_execution-inserted,
}

abbrev pub IsKnown : List ExecutionRow → String → Type 0
IsKnown executions id = any (has_execution_id id) executions ≡ true

pub record IsConsistent (db : Db) : Type 0 where
  pub execution_ids : Distinct (λ r. r.id) db.executions
  pub event_ids : Distinct (λ e. e.id) db.events
  pub activity_ids : Distinct (λ r. r.act.id) db.activity_executions
  pub keys : Distinct (λ r. r.act.idempotency_key) db.activity_executions
  pub outbox_ids : Distinct (λ m. m.id) db.outbox
  pub activity_known : All (λ r. IsKnown db.executions r.act.execution_id) db.activity_executions
  pub event_known : All (λ e. IsKnown db.executions e.execution_id) db.events

event-IsConsistent :
    (e : WorkflowEvent) (db db' : Db) → EventInserted e db db' → IsConsistent db → IsConsistent db'
event-IsConsistent e db db' i c = rw i.result (record {
  execution_ids = c.execution_ids;
  event_ids =
      Distinct-append (λ e. e.id) db.events e c.event_ids
        (any-false (λ e. e.id) e.id db.events i.new_id);
  activity_ids = c.activity_ids;
  keys = c.keys;
  outbox_ids = c.outbox_ids;
  activity_known = c.activity_known;
  event_known =
      All-append (λ e. IsKnown db.executions e.execution_id) db.events (e ∷ []) c.event_known
        (i.known, tt);
})

outbox-IsConsistent :
    (now : ℕ) (msg : OutboxMessage) (db db' : Db)
    → OutboxInserted now msg db db'
    → IsConsistent db
    → IsConsistent db'
outbox-IsConsistent now msg db db' i c = rw i.result (record {
  execution_ids = c.execution_ids;
  event_ids = c.event_ids;
  activity_ids = c.activity_ids;
  keys = c.keys;
  outbox_ids =
      Distinct-append (λ m. m.id) db.outbox (record msg { created_at = now }) c.outbox_ids
        (any-false (λ m. m.id) msg.id db.outbox i.new_id);
  activity_known = c.activity_known;
  event_known = c.event_known;
})

activity-IsConsistent :
    (now : ℕ) (act : ActivityExecution) (db db' : Db)
    → ActivityInserted now act db db'
    → IsConsistent db
    → IsConsistent db'
activity-IsConsistent now act db db' i c = rw i.result (record {
  execution_ids = c.execution_ids;
  event_ids = c.event_ids;
  activity_ids =
      Distinct-append (λ r. r.act.id) db.activity_executions (fresh_row now act) c.activity_ids
        (any-false (λ r. r.act.id) act.id db.activity_executions i.new_id);
  keys =
      Distinct-append (λ r. r.act.idempotency_key) db.activity_executions (fresh_row now act) c.keys
        (any-false (λ r. r.act.idempotency_key) act.idempotency_key db.activity_executions
          i.new_key);
  outbox_ids = c.outbox_ids;
  activity_known =
      All-append (λ r. IsKnown db.executions r.act.execution_id) db.activity_executions
        (fresh_row now act ∷ []) c.activity_known (i.known, tt);
  event_known = c.event_known;
})

-- An update that keeps ids keeps which executions are known.
IsKnown-update :
    (q : ExecutionRow → Bool) (f : ExecutionRow → ExecutionRow) (rows : List ExecutionRow)
    (id : String)
    → ((row : ExecutionRow) → (f row).id ≡ row.id)
    → IsKnown rows id
    → IsKnown (update q f rows) id
IsKnown-update q f rows id same h =
    any-update (has_execution_id id) q f rows (λ row. ap (λ s. s == id) (same row)) ∙ h

execution-IsConsistent :
    (eid : String) (may : ExecutionStatus → Bool) (f : ExecutionRow → ExecutionRow) (db : Db)
    → Permitted may f
    → IsConsistent db
    → IsConsistent (update_execution eid f db)
unfolding update_execution
execution-IsConsistent eid may f db p c = record {
  execution_ids =
      Distinct-update (λ r. r.id) (has_execution_id eid) f db.executions p.same_id c.execution_ids;
  event_ids = c.event_ids;
  activity_ids = c.activity_ids;
  keys = c.keys;
  outbox_ids = c.outbox_ids;
  activity_known =
      All-map (λ r. IsKnown db.executions r.act.execution_id) _ db.activity_executions
        (λ r. IsKnown-update _ f db.executions r.act.execution_id p.same_id) c.activity_known;
  event_known =
      All-map (λ e. IsKnown db.executions e.execution_id) _ db.events
        (λ e. IsKnown-update _ f db.executions e.execution_id p.same_id) c.event_known;
}

settle-IsConsistent :
    (id : String) (f : ActivityExecution → ActivityExecution) (db : Db)
    → Settles f
    → IsConsistent db
    → IsConsistent (update_activity id f db)
unfolding update_activity
settle-IsConsistent id f db s c = record {
  execution_ids = c.execution_ids;
  event_ids = c.event_ids;
  activity_ids =
      Distinct-update (λ r. r.act.id) _ _ db.activity_executions (λ r. s.same_id r.act)
        c.activity_ids;
  keys =
      Distinct-update (λ r. r.act.idempotency_key) _ _ db.activity_executions
        (λ r. s.same_key r.act) c.keys;
  outbox_ids = c.outbox_ids;
  activity_known =
      All-update (λ r. IsKnown db.executions r.act.execution_id) _ _ db.activity_executions
        (λ r k. rw (s.same_execution r.act) k) c.activity_known;
  event_known = c.event_known;
}

next-IsConsistent :
    (act : ActivityExecution) (e : WorkflowEvent) (msg : OutboxMessage) (now : ℕ) (db db' : Db)
    → NextInserted act e msg now db db'
    → IsConsistent db
    → IsConsistent db'
next-IsConsistent act e msg now db db' i c =
    outbox-IsConsistent now msg i.db₂ db' i.outbox (
      event-IsConsistent e i.db₁ i.db₂ i.event
        (activity-IsConsistent now act db i.db₁ i.activity c))

abbrev pub Consistent : Db → List Published → Type 0
Consistent db b = IsConsistent db

pub Consistent-Stable : (eid : String) (may : ExecutionStatus → Bool) → Stable eid may Consistent
Consistent-Stable eid may = record {
  execution = λ f db b p c. execution-IsConsistent eid may f db p c;
  settle = λ id f db b s c. settle-IsConsistent id f db s c;
  event = λ e db db' b h c. event-IsConsistent e db db' (insert_event-inserted e db db' h) c;
  outbox = λ now msg db db' b h c.
      outbox-IsConsistent now msg db db' (insert_outbox-inserted now msg db db' h) c;
  next = λ act e msg now db db' b h new ann c.
      next-IsConsistent act e msg now db db' (insert_next-inserted act e msg now db db' h) c;
}

insert_execution-IsConsistent :
    (row : ExecutionRow) (db db' : Db)
    → insert_execution row db ≡ ok db'
    → IsConsistent db
    → IsConsistent db'
insert_execution-IsConsistent row db db' h c =
    let i = insert_execution-inserted row db db' h in
    let still = λ (id : String) (k : IsKnown db.executions id).
      any-append_known (has_execution_id id) db.executions row k in
    rw i.result (record {
      execution_ids =
          Distinct-append (λ r. r.id) db.executions row c.execution_ids
            (any-false (λ r. r.id) row.id db.executions i.new_id);
      event_ids = c.event_ids;
      activity_ids = c.activity_ids;
      keys = c.keys;
      outbox_ids = c.outbox_ids;
      activity_known =
          All-map (λ r. IsKnown db.executions r.act.execution_id) _ db.activity_executions
            (λ r. still r.act.execution_id) c.activity_known;
      event_known =
          All-map (λ e. IsKnown db.executions e.execution_id) _ db.events
            (λ e. still e.execution_id) c.event_known;
    })

pub Consistent-StableStart : StableStart Consistent
Consistent-StableStart = record {
  execution = λ row db db' b h c. insert_execution-IsConsistent row db db' h c;
}
