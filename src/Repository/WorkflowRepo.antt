-- ===== src/Repository/WorkflowRepo.antt =====
-- internal/repository/workflow_repo.go: the definitions of workflows, one row of `workflows` and
-- one row of `activities` for each step. An empty string is stored as NULL.
pub mod Roundtrip
use Prim.Native.String.{◌++◌ as ◌+++◌}
use flowscale.Format.{show}
use flowscale.Prelude.{
  ℕ, suc, String, Option, none, some, List, [], ◌∷◌, ◌++◌, Bool, leb, ltb, map, ◌==◌, find, select,
  any, update, delete, sort_by, not, ◌&&◌, if◌then◌else◌,
}
use flowscale.Models.{ℤ, pos, negsuc, Activity, Workflow}
use flowscale.Runtime.{
  Env, Db, WorkflowRow, ActivityRow, ExecutionRow, M, Result, ok, err, tx, query, unique_violation,
  workflow_not_found, foreign_key_violation,
}
use flowscale.Repository.Sql.{◌>>=◌, has_workflow_id, has_execution_id}

abbrev pub null_if_empty : String → Option String
null_if_empty s = if s == "" then none else some s

-- `if BackoffCoefficient > 0`
abbrev pub null_unless_positive : ℤ → Option ℤ
null_unless_positive (pos n) = if ltb 0 n then some (pos n) else none
null_unless_positive (negsuc n) = none

-- The columns of one step; without a retry policy all four of its columns are NULL.
unfoldable pub activity_row : String → ℕ → Activity → ActivityRow
activity_row workflow_id i act = record {
  id = workflow_id +++ "-act-" +++ show i;
  workflow_id = workflow_id;
  name = act.name;
  compensation_activity_name = null_if_empty act.compensation;
  retry_max_attempts = elim act.retry_policy [ none ↦ none | some p ↦ some p.max_attempts ];
  retry_backoff_strategy = elim act.retry_policy [ none ↦ none | some p ↦ some p.backoff_strategy ];
  retry_initial_interval = elim act.retry_policy [
    | none ↦ none
    | some p ↦ null_if_empty p.initial_interval
  ];
  retry_backoff_coefficient = elim act.retry_policy [
    | none ↦ none
    | some p ↦ null_unless_positive p.backoff_coefficient
  ];
  timeout = null_if_empty act.timeout;
  position = i;
}

-- UNIQUE (workflow_id, name) of `activities`, and its foreign key.
abbrev has_step : String → String → ActivityRow → Bool
has_step workflow_id name row = row.workflow_id == workflow_id && row.name == name

unfoldable pub insert_activity_row : ActivityRow → Db → Result Db
insert_activity_row row db =
    if any (λ r. r.id == row.id) db.activities
    then err unique_violation
    else if any (has_step row.workflow_id row.name) db.activities
    then err unique_violation
    else if any (has_workflow_id row.workflow_id) db.workflows
    then ok (record db { activities = db.activities ++ row ∷ [] })
    else err foreign_key_violation

-- The loop over `wf.Activities` that CreateWorkflow and UpdateWorkflow share.
unfoldable pub insert_activities : String → ℕ → List Activity → Db → Result Db
insert_activities workflow_id i [] db = ok db
insert_activities workflow_id i (act ∷ acts) db =
    insert_activity_row (activity_row workflow_id i act) db
    >>= insert_activities workflow_id (suc i) acts

-- INSERT INTO workflows; `name` is UNIQUE, and the times are the defaults of their columns.
unfoldable pub insert_workflow : ℕ → String → String → Db → Result Db
insert_workflow now id name db =
    if any (has_workflow_id id) db.workflows
    then err unique_violation
    else if any (λ row. row.name == name) db.workflows
    then err unique_violation
    else ok (record db {
      workflows =
          db.workflows ++ record { id = id; name = name; created_at = now; updated_at = now } ∷ [];
    })

unfoldable pub create_workflow : Env → Workflow → M Unit
create_workflow env wf = tx env λ now db. do
  db₁ ← insert_workflow now wf.id wf.name db
  insert_activities wf.id 0 wf.activities db₁

abbrev takes_name : String → String → WorkflowRow → Bool
takes_name id name row = row.name == name && not (row.id == id)

-- UPDATE workflows SET name, updated_at WHERE id: it violates UNIQUE if another row has the name.
unfoldable pub rename_workflow : ℕ → String → String → Db → Result Db
rename_workflow now id name db =
    if any (has_workflow_id id) db.workflows && any (takes_name id name) db.workflows
    then err unique_violation
    else ok (record db {
      workflows =
          update (has_workflow_id id) (λ row. record row { name = name; updated_at = now })
            db.workflows;
    })

-- DELETE FROM activities WHERE workflow_id = $1
unfoldable pub delete_activities : String → Db → Db
delete_activities workflow_id db = record db {
  activities = delete (λ row. row.workflow_id == workflow_id) db.activities;
}

unfoldable pub update_workflow : Env → Workflow → M Unit
update_workflow env wf = tx env λ now db. do
  db₁ ← rename_workflow now wf.id wf.name db
  insert_activities wf.id 0 wf.activities (delete_activities wf.id db₁)

abbrev pub or_empty : Option String → String
or_empty none = ""
or_empty (some s) = s

-- Scanning a row: a policy is there if `retry_max_attempts` is not NULL.
unfoldable pub to_activity : ActivityRow → Activity
to_activity row = record {
  name = row.name;
  compensation = or_empty row.compensation_activity_name;
  retry_policy = elim row.retry_max_attempts [
    | none ↦ none
    | some n ↦ some record {
      max_attempts = n;
      backoff_strategy = or_empty row.retry_backoff_strategy;
      initial_interval = or_empty row.retry_initial_interval;
      backoff_coefficient = elim row.retry_backoff_coefficient [ none ↦ pos 0 | some c ↦ c ];
    }
  ];
  timeout = or_empty row.timeout;
}

abbrev pub steps_of : String → List ActivityRow → List Activity
steps_of id rows =
    map to_activity
      (sort_by (λ a b. leb a.position b.position) (select (λ row. row.workflow_id == id) rows))

abbrev with_steps : Option WorkflowRow → List Activity → Result Workflow
with_steps none steps = err workflow_not_found
with_steps (some row) steps = ok (record {
  id = row.id;
  name = row.name;
  activities = steps;
  created_at = row.created_at;
  updated_at = row.updated_at;
})

unfoldable pub find_workflow : String → Db → Result Workflow
find_workflow id db =
    with_steps (find (has_workflow_id id) db.workflows) (steps_of id db.activities)

abbrev pub get_workflow : Env → String → M Workflow
get_workflow env id = query env (find_workflow id)

-- The executions that a DELETE of the workflow cascades to.
unfoldable pub executions_of_workflow : String → Db → List ExecutionRow
executions_of_workflow id db = select (λ row. row.workflow_id == id) db.executions

-- DELETE FROM workflows: the foreign keys cascade to the steps, the schedules, the executions, and
-- from these to their events and activities.
unfoldable pub delete_workflow : Env → String → M Unit
delete_workflow env id = tx env λ now db.
    if any (has_workflow_id id) db.workflows
    then ok (record db {
      workflows = delete (has_workflow_id id) db.workflows;
      activities = delete (λ row. row.workflow_id == id) db.activities;
      executions = delete (λ row. row.workflow_id == id) db.executions;
      events =
          delete (λ e. any (has_execution_id e.execution_id) (executions_of_workflow id db))
            db.events;
      activity_executions =
          delete (λ r. any (has_execution_id r.act.execution_id) (executions_of_workflow id db))
            db.activity_executions;
      schedules = delete (λ s. s.workflow_id == id) db.schedules;
    })
    else err workflow_not_found
