-- ===== src/Engine/Start.antt =====
-- `StartWorkflow` of internal/engine/engine.go.
use flowscale.Prelude.{ℕ, ◌+◌, String, Option, none, some, List, [], ◌∷◌}
use flowscale.Models.{
  pos, ExecutionStatus, workflow_started, empty, WorkflowExecution, Activity, ActivityExecution,
  OutboxMessage,
}
use flowscale.Runtime.{Env, Metrics, M, ◌>>=◌, ◌>>◌, pure, new_id, time_now, count_metric}
use flowscale.Repository.ExecutionRepo.{create_execution}
use flowscale.Repository.WorkflowRepo.{get_workflow}
use flowscale.Engine.Build.{new_event_at, new_activity, new_outbox, task_of}

abbrev first_name : List Activity → String
first_name [] = ""
first_name (act ∷ acts) = act.name

-- An execution of a workflow with no steps is completed from the start.
abbrev first_status : List Activity → ExecutionStatus
first_status [] = ExecutionStatus.completed
first_status (act ∷ acts) = ExecutionStatus.running

abbrev pub first_activity : Env → String → List Activity → M (Option ActivityExecution)
first_activity env id [] = pure none
first_activity env id (act ∷ acts) = do a ← new_activity env id act.name 1; pure (some a)

abbrev pub first_outbox : Env → Option ActivityExecution → M (Option OutboxMessage)
first_outbox env none = pure none
first_outbox env (some a) = do m ← new_outbox env (pos 0) (task_of a); pure (some m)

abbrev pub inc_started : Metrics → Metrics
inc_started m = record m { workflows_started = m.workflows_started + 1 }

abbrev pub new_execution : String → String → ℕ → List Activity → WorkflowExecution
new_execution id workflow_id now steps = record {
  id = id;
  workflow_id = workflow_id;
  workflow_name = "";
  status = first_status steps;
  current_activity = first_name steps;
  created_at = now;
  updated_at = now;
}

-- The execution with its first activity, its event and its outbox message is written.
unfoldable pub create_first :
    Env → WorkflowExecution → Option ActivityExecution → M WorkflowExecution
create_first env exec first = do
  event ← new_event_at env exec.id workflow_started empty exec.created_at
  msg ← first_outbox env first
  create_execution env exec event first msg
  count_metric inc_started
  pure exec

-- What follows once the steps of the workflow are read.
unfoldable pub start_with : Env → String → List Activity → M WorkflowExecution
start_with env workflow_id steps = do
  now ← time_now env
  id ← new_id env
  first ← first_activity env id steps
  create_first env (new_execution id workflow_id now steps) first

unfoldable pub start_workflow : Env → String → M WorkflowExecution
start_workflow env workflow_id = do
  wf ← get_workflow env workflow_id
  start_with env workflow_id wf.activities
