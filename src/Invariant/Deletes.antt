-- ===== src/Invariant/Deletes.antt =====
-- The deletions, with what the foreign keys cascade to, and the writes of definitions, schedules
-- and heartbeats keep both invariants.
use flowscale.Prelude.Predicates.{
  All-delete, All-delete_kept, All-update, Distinct-delete, Distinct-update, any-delete,
}
use flowscale.Prelude.{
  ℕ, ◌≡◌, refl, subst, ◌≢◌, Bool, true, false, ◌==◌, Option, some, List, [], ◌∷◌, String, arith,
  any, select, delete, update, eq_iff, if◌then◌else◌,
}
use flowscale.Runtime.{
  Env, Db, Published, ExecutionRow, ActivityExecutionRow, Error, ok, err, execution_not_found,
  workflow_not_found,
}
use flowscale.Runtime.Keeps.{Keeps, Keeps-tx}
use flowscale.Repository.Sql.{has_execution_id, has_workflow_id}
use flowscale.Repository.ExecutionRepo.{delete_execution, record_heartbeat, heartbeat_row}
use flowscale.Repository.WorkflowRepo.{delete_workflow, executions_of_workflow}
use flowscale.Invariant.Consistent.{IsKnown}
use flowscale.Invariant.Dispatched.{RowHanded}
use flowscale.Invariant.Holds.{Holds}

-- Executions are deleted with the rows that refer to them.
pub record Cascades (q : ExecutionRow → Bool) (db db' : Db) : Type 0 where
  pub gone : String → Bool
  pub executions : db'.executions ≡ delete q db.executions
  pub events : db'.events ≡ delete (λ e. gone e.execution_id) db.events
  pub activity_executions :
      db'.activity_executions ≡ delete (λ r. gone r.act.execution_id) db.activity_executions
  pub outbox : db'.outbox ≡ db.outbox
  pub only_known :
      (id : String) → gone id ≡ false → any (has_execution_id id) (select q db.executions) ≡ false

module _ (q : ExecutionRow → Bool) (db db' : Db) (c : Cascades q db db') where
  still-IsKnown :
      (id : String) → c.gone id ≡ false → IsKnown db.executions id → IsKnown db'.executions id
  still-IsKnown id kept known =
      rw c.executions
        (ground (arith, any-delete (has_execution_id id) q db.executions, c.only_known id kept))

  pub Cascades-Holds : (b : List Published) → Holds db b → Holds db' b
  Cascades-Holds b h = record {
    consistent = record {
      execution_ids =
          rw c.executions (Distinct-delete _ q db.executions h.consistent.execution_ids);
      event_ids = rw c.events (Distinct-delete _ _ db.events h.consistent.event_ids);
      activity_ids =
          rw c.activity_executions
            (Distinct-delete _ _ db.activity_executions h.consistent.activity_ids);
      keys =
          rw c.activity_executions (Distinct-delete _ _ db.activity_executions h.consistent.keys);
      outbox_ids = rw c.outbox h.consistent.outbox_ids;
      activity_known = rw c.activity_executions (
          All-delete_kept _ _ _ db.activity_executions
            (λ r kept known. still-IsKnown r.act.execution_id kept known)
            h.consistent.activity_known);
      event_known = rw c.events (
          All-delete_kept _ _ _ db.events (λ e kept known. still-IsKnown e.execution_id kept known)
            h.consistent.event_known);
    };
    dispatched = record {
      all_handed =
          rw (c.activity_executions, c.outbox)
            (All-delete (RowHanded db.outbox b) _ db.activity_executions h.dispatched.all_handed);
    };
  }

ok-injective : {A : Type 0} {a b : A} → ok a ≡ ok b → a ≡ b
ok-injective h = cc

err-ok : {a : Db} {x : Error} → err x ≢ ok a
err-ok h = cc

heartbeat-Holds :
    (p : ActivityExecutionRow → Bool) (t : Option ℕ) (db : Db) (b : List Published)
    → Holds db b
    → Holds
        (record db {
          activity_executions =
              update p (λ r. record r { last_heartbeat_at = t }) db.activity_executions;
        })
        b
heartbeat-Holds p t db b h = record {
  consistent = record {
    execution_ids = h.consistent.execution_ids;
    event_ids = h.consistent.event_ids;
    activity_ids =
        Distinct-update _ p _ db.activity_executions (λ r. refl) h.consistent.activity_ids;
    keys = Distinct-update _ p _ db.activity_executions (λ r. refl) h.consistent.keys;
    outbox_ids = h.consistent.outbox_ids;
    activity_known =
        All-update (λ r. IsKnown db.executions r.act.execution_id) p _ db.activity_executions
          (λ r k. k) h.consistent.activity_known;
    event_known = h.consistent.event_known;
  };
  dispatched = record {
    all_handed =
        All-update (RowHanded db.outbox b) p _ db.activity_executions (λ r k. k)
          h.dispatched.all_handed;
  };
}

pub record_heartbeat-Keeps : (env : Env) (id : String) → Keeps Holds (record_heartbeat env id)
unfolding record_heartbeat
record_heartbeat-Keeps env id =
    Keeps-tx env _
      λ now db db' b e h. ground (arith, heartbeat-Holds (heartbeat_row id) (some now) db b h)

one_gone :
    (id eid : String) (rows : List ExecutionRow)
    → (eid == id) ≡ false
    → any (has_execution_id eid) (select (has_execution_id id) rows) ≡ false
unfolding any select
one_gone id eid [] h = refl
one_gone id eid (r ∷ rows) h =
    ground (arith, one_gone id eid rows h, eq_iff r.id id, eq_iff r.id eid, eq_iff eid id)

-- A guarded body that ends in `ok` was given its result.
guarded :
    (Q : Db → List Published → Type 0) (t : Bool) (a db' : Db) (x : Error) (b : List Published)
    → (if t then ok a else err x) ≡ ok db'
    → Q a b
    → Q db' b
guarded Q true a db' x b e k = subst (λ d. Q d b) (ok-injective e) k
guarded Q false a db' x b e k = absurd (err-ok e)

pub delete_execution-Keeps : (env : Env) (id : String) → Keeps Holds (delete_execution env id)
unfolding delete_execution
delete_execution-Keeps env id = Keeps-tx env _ λ now db db' b e h.
    guarded Holds (any (has_execution_id id) db.executions) _ db' execution_not_found b e (
      Cascades-Holds (has_execution_id id) db _
        (record {
          gone = λ eid. eid == id;
          executions = refl;
          events = refl;
          activity_executions = refl;
          outbox = refl;
          only_known = λ eid kept. one_gone id eid db.executions kept;
        })
        b h)

pub delete_workflow-Keeps : (env : Env) (id : String) → Keeps Holds (delete_workflow env id)
unfolding delete_workflow executions_of_workflow
delete_workflow-Keeps env id = Keeps-tx env _ λ now db db' b e h.
    guarded Holds (any (has_workflow_id id) db.workflows) _ db' workflow_not_found b e (
      Cascades-Holds (λ row. row.workflow_id == id) db _
        (record {
          gone = λ eid.
              any (has_execution_id eid) (select (λ row. row.workflow_id == id) db.executions);
          executions = refl;
          events = refl;
          activity_executions = refl;
          outbox = refl;
          only_known = λ eid kept. kept;
        })
        b h)
