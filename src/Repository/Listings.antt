-- ===== src/Repository/Listings.antt =====
-- The listings for the API: `ListExecutions` of internal/repository/execution_repo.go and
-- `ListWorkflows` of internal/repository/workflow_repo.go.
pub mod Filters
use flowscale.Prelude.{
  ℕ, zero, suc, ◌-◌, ◌*◌, ◌^◌, String, Option, none, some, List, [], ◌∷◌, Bool, true, false, leb,
  map, ◌==◌, find, select, any, sort_by, take, drop, ◌&&◌, if◌then◌else◌,
}
use flowscale.Models.{
  ℤ, pos, negsuc, ExecutionStatus, status_text, Activity, WorkflowExecution, Workflow,
}
use flowscale.Strings.{split, trim_space}
use flowscale.Runtime.{
  Env, Db, WorkflowRow, ExecutionRow, M, ◌>>=◌, Result, ok, err, pure, query, time_now, db_error,
}
use flowscale.Repository.Sql.{has_workflow_id}
use flowscale.Repository.ExecutionQueries.{join_name}

-- `e.status = $1` for one status, `e.status IN (...)` for several: only several are trimmed.
abbrev pub in_statuses : List String → String → ExecutionStatus → Bool
in_statuses (s ∷ []) status x = status_text x == status
in_statuses parts status x = any (λ s. status_text x == trim_space s) parts

unfoldable pub has_status : String → ExecutionStatus → Bool
unfolding split
has_status status x = if status == "" then true else in_statuses (split status b',') status x

unfoldable pub of_workflow : String → ExecutionRow → Bool
of_workflow id row = if id == "" then true else row.workflow_id == id

abbrev hours : ℕ → ℕ
hours n = n * 3600 * 10 ^ 9

-- How far `time_range` reaches back; any other text sets no bound.
abbrev pub lookback : String → Option ℕ
lookback range =
    if range == "1h"
    then some (hours 1)
    else if range == "24h"
    then some (hours 24)
    else if range == "7d"
    then some (hours 168)
    else none

-- A bound before the epoch excludes no row, as 0 does not.
abbrev pub since_of : Env → Option ℕ → M (Option ℕ)
since_of env none = pure none
since_of env (some d) = do now ← time_now env; pure (some (now - d))

abbrev pub since : Env → String → M (Option ℕ)
since env range = since_of env (lookback range)

abbrev pub is_since : Option ℕ → ExecutionRow → Bool
is_since none row = true
is_since (some t) row = leb t row.created_at

-- The WHERE clause.
unfoldable pub is_listed : String → String → Option ℕ → ExecutionRow → Bool
is_listed status workflow_id from row =
    has_status status row.status && of_workflow workflow_id row && is_since from row

-- JOIN workflows w ON w.id = e.workflow_id: rows without a workflow are left out.
abbrev add_joined : Option WorkflowExecution → List WorkflowExecution → List WorkflowExecution
add_joined none es = es
add_joined (some e) es = e ∷ es

unfoldable pub join_rows : List WorkflowRow → List ExecutionRow → List WorkflowExecution
join_rows wfs [] = []
join_rows wfs (row ∷ rows) =
    add_joined (join_name row (find (has_workflow_id row.workflow_id) wfs)) (join_rows wfs rows)

-- OFFSET and LIMIT are appended where they are positive.
abbrev pub offset_by {ℓ} : {A : Type ℓ} → ℤ → List A → List A
offset_by (pos n) xs = drop n xs
offset_by (negsuc n) xs = xs

abbrev pub limit_by {ℓ} : {A : Type ℓ} → ℤ → List A → List A
limit_by (pos zero) xs = xs
limit_by (pos (suc n)) xs = take (suc n) xs
limit_by (negsuc n) xs = xs

-- ORDER BY created_at DESC
abbrev pub newest_first : WorkflowExecution → WorkflowExecution → Bool
newest_first e f = leb f.created_at e.created_at

unfoldable pub executions_listed : String → String → Option ℕ → ℤ → ℤ → Db → List WorkflowExecution
unfolding is_listed join_rows
executions_listed status workflow_id from limit offset db = limit_by limit (
    offset_by offset (
      sort_by newest_first
        (join_rows db.workflows (select (is_listed status workflow_id from) db.executions))))

unfoldable pub list_executions : Env → String → String → String → ℤ → ℤ → M (List WorkflowExecution)
list_executions env status workflow_id range limit offset = do
  from ← since env range
  query env λ db. ok (executions_listed status workflow_id from limit offset db)

-- A row of `workflows` is returned without its steps.
abbrev bare : WorkflowRow → Workflow
bare row = record {
  id = row.id;
  name = row.name;
  activities = [];
  created_at = row.created_at;
  updated_at = row.updated_at;
}

-- LIMIT and OFFSET are there always, and PostgreSQL refuses negative ones.
unfoldable pub workflows_listed : ℤ → ℤ → Db → Result (List Workflow)
workflows_listed (pos limit) (pos offset) db = ok (
    map bare
      (take limit (drop offset (sort_by (λ a b. leb b.created_at a.created_at) db.workflows))))
workflows_listed limit offset db = err db_error

unfoldable pub list_workflows : Env → ℤ → ℤ → M (List Workflow)
list_workflows env limit offset = query env (workflows_listed limit offset)
