-- ===== src/Repository/ExecutionQueries.antt =====
-- internal/repository/execution_repo.go: the methods that read.
use mathlib.Core.Option
use flowscale.Prelude.{
  ℕ, String, Option, none, some, List, Bool, true, false, leb, ltb, map, ◌==◌, find, select,
  sort_by, take,
}
use flowscale.Models.{WorkflowExecution, WorkflowEvent, ActivityExecution, OutboxMessage}
use flowscale.Runtime.{Env, Db, WorkflowRow, ExecutionRow, M, Result, ok, err, query, no_rows}
use flowscale.Repository.Sql.{has_workflow_id, has_execution_id, has_activity_id}

abbrev pub found : {A : Type 0} → Option A → Result A
found none = err no_rows
found (some a) = ok a

-- JOIN workflows w ON w.id = e.workflow_id: an execution without its workflow is no row.
abbrev pub join_name : ExecutionRow → Option WorkflowRow → Option WorkflowExecution
join_name row none = none
join_name row (some wf) = some record {
  id = row.id;
  workflow_id = row.workflow_id;
  workflow_name = wf.name;
  status = row.status;
  current_activity = row.current_activity;
  created_at = row.created_at;
  updated_at = row.updated_at;
}

abbrev join_workflow : List WorkflowRow → Option ExecutionRow → Option WorkflowExecution
join_workflow wfs none = none
join_workflow wfs (some row) = join_name row (find (has_workflow_id row.workflow_id) wfs)

unfoldable pub find_execution : String → Db → Result WorkflowExecution
find_execution id db = found (join_workflow db.workflows (find (has_execution_id id) db.executions))

abbrev pub get_execution : Env → String → M WorkflowExecution
get_execution env id = query env (find_execution id)

unfoldable pub find_activity : String → Db → Result ActivityExecution
find_activity id db =
    found (Option.map (λ row. row.act) (find (has_activity_id id) db.activity_executions))

abbrev pub get_activity_execution : Env → String → M ActivityExecution
get_activity_execution env activity_id = query env (find_activity activity_id)

-- The activities of one execution, before they are ordered.
unfoldable pub activities_of : String → Db → List ActivityExecution
activities_of execution_id db =
    map (λ row. row.act)
      (select (λ row. row.act.execution_id == execution_id) db.activity_executions)

-- ORDER BY completed_at ASC NULLS LAST leaves the order among equals to the database.
abbrev pub list_activity_executions : Env → String → M (List ActivityExecution)
list_activity_executions env execution_id =
    query env λ db. ok (env.by_completed_at (activities_of execution_id db))

-- ORDER BY timestamp ASC
unfoldable pub get_execution_events : Env → String → M (List WorkflowEvent)
get_execution_events env execution_id = query env λ db. ok (
    sort_by (λ e f. leb e.timestamp f.timestamp)
      (select (λ e. e.execution_id == execution_id) db.events))

abbrev is_dead : ActivityExecution → Bool
is_dead a = elim a.dead_lettered_at [ none ↦ false | some _ ↦ true ]

abbrev later_dead : Option ℕ → Option ℕ → Bool
later_dead (some s) (some t) = ltb t s
later_dead _ _ = false

-- WHERE dead_lettered_at IS NOT NULL ORDER BY dead_lettered_at DESC
unfoldable pub list_dead_lettered_activities : Env → M (List ActivityExecution)
list_dead_lettered_activities env = query env λ db. ok (
    sort_by (λ a b. later_dead a.dead_lettered_at b.dead_lettered_at)
      (select is_dead (map (λ row. row.act) db.activity_executions)))

-- ORDER BY created_at ASC LIMIT $1
unfoldable pub get_pending_outbox_messages : Env → ℕ → M (List OutboxMessage)
get_pending_outbox_messages env limit =
    query env λ db. ok (take limit (sort_by (λ m n. leb m.created_at n.created_at) db.outbox))
