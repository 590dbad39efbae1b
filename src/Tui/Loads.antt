-- ===== src/Tui/Loads.antt =====
-- The commands of the terminal interface, run against a server through the client: what is loaded,
-- and what the calls of a key do.
pub mod Widths
use Prim.Native.String.{◌++◌ as ◌+++◌}
use flowscale.Prelude.{
  ℕ, suc, String, Option, none, some, List, [], ◌∷◌, Bool, map, length, ◌==◌, if◌then◌else◌,
}
use flowscale.Models.{
  Workflow, Schedule, ScheduleStatus, active, finished, paused, WorkflowExecution,
  ActivityExecution, status_text,
}
use flowscale.Format.{show}
use flowscale.Runtime.{World}
use flowscale.Api.{Handler}
use flowscale.Client
use flowscale.Client.{Link, Client, Outcome, done, api_error, failed, do_request, list_dlq, nothing}
use flowscale.Tui.{
  ViewState, view_executions, view_workflows, view_dlq, view_compensation, view_schedules,
  view_detail, Row, Msg, load_failed, loaded, shipment_status, ApiCall, retry_dlq,
  retry_compensation, cancel_execution, delete_schedule, pause_schedule, resume_schedule,
  start_workflow, set_shipment_status, post_seed, list_workflows, create_schedule,
}

-- wfMap[id]: the last workflow of the list with this id, and the id itself if there is none.
unfoldable pub workflow_name : List Workflow → String → String → String
workflow_name [] id name = name
workflow_name (wf ∷ wfs) id name = workflow_name wfs id (if wf.id == id then wf.name else name)

-- The marks are written without their variation selectors.
unfoldable pub color_status : String → String
color_status st =
    if st == "COMPLETED"
    then "✅ COMPLETED"
    else if st == "ACTIVE"
    then "🟢 ACTIVE"
    else if st == "FAILED"
    then "❌ FAILED"
    else if st == "RUNNING"
    then "⏳ RUNNING"
    else if st == "COMPENSATING"
    then "⚠ COMPENSAT.."
    else if st == "CANCELLED"
    then "🛑 CANCELLED"
    else if st == "PAUSED"
    then "⏸ PAUSED"
    else st

abbrev schedule_text : ScheduleStatus → String
schedule_text active = "ACTIVE"
schedule_text finished = "FINISHED"
schedule_text paused = "PAUSED"

-- The cells of one row, in each view.
abbrev pub execution_row : List Workflow → WorkflowExecution → Row
execution_row wfs ex =
    ex.id
    ∷ workflow_name wfs ex.workflow_id ex.workflow_id
    ∷ color_status (status_text ex.status)
    ∷ []

abbrev pub workflow_row : Workflow → Row
workflow_row wf = wf.id ∷ wf.name ∷ (show (length wf.activities) +++ " acts") ∷ []

abbrev pub dlq_row : ActivityExecution → Row
dlq_row act = act.id ∷ act.execution_id ∷ act.activity_name ∷ show act.attempt ∷ []

-- The status stands before the activity, under the columns "Activity" and "Status".
abbrev pub compensation_row : List Workflow → WorkflowExecution → Row
compensation_row wfs ex =
    ex.id
    ∷ workflow_name wfs ex.workflow_id ex.workflow_id
    ∷ color_status (status_text ex.status)
    ∷ ex.current_activity
    ∷ []

-- `clock` formats a time; every schedule has a next run here, so it is never the zero time.
abbrev pub schedule_row : (ℕ → String) → List Workflow → Schedule → Row
schedule_row clock wfs s =
    s.id
    ∷ workflow_name wfs s.workflow_id s.workflow_id
    ∷ color_status (schedule_text s.status)
    ∷ clock s.next_run_at
    ∷ []

-- An error of ListWorkflows is ignored: the list is empty then.
abbrev pub names_of : Outcome (List Workflow) → List Workflow
names_of (done wfs) = wfs
names_of o = []

abbrev pub shown :
    {A : Type 0} → ViewState → (A → Row) → Outcome (List A) × World → Option Msg × World
shown s row (done as_rows, w) = (some (loaded s (map row as_rows) ""), w)
shown s row (api_error n b, w) = (some load_failed, w)
shown s row (failed, w) = (some load_failed, w)

module _ (link : Link) (server : Handler) (c : Client) (clock : ℕ → String) where
  -- What is asked for the open view, once the names of the workflows are known.
  unfoldable pub load_view :
      List Workflow → ViewState → String → String → String → World → Option Msg × World
  load_view wfs view_executions status workflow range w =
      shown view_executions (execution_row wfs)
        (Client.list_executions link server c status workflow range w)
  load_view wfs view_workflows status workflow range w =
      shown view_workflows workflow_row (Client.list_workflows link server c w)
  load_view wfs view_dlq status workflow range w = shown view_dlq dlq_row (list_dlq link server c w)
  load_view wfs view_compensation status workflow range w =
      shown view_compensation (compensation_row wfs)
        (Client.list_executions link server c "COMPENSATING,COMPENSATED" "" "" w)
  load_view wfs view_schedules status workflow range w =
      shown view_schedules (schedule_row clock wfs) (Client.list_schedules link server c w)
  load_view wfs view_detail status workflow range w = (none, w)

  unfoldable pub load_data : ViewState → String → String → String → World → Option Msg × World
  load_data s status workflow range w =
      let (o, w') = Client.list_workflows link server c w in
      load_view (names_of o) s status workflow range w'

  -- A status that cannot be asked for is no message.
  abbrev shipment_msg : Outcome Bool × World → Option Msg × World
  shipment_msg (done d, w) = (some (shipment_status d), w)
  shipment_msg (o, w) = (none, w)

  unfoldable pub load_shipment_status : World → Option Msg × World
  load_shipment_status w = shipment_msg (Client.get_shipment_status link server c w)

  -- The request that the key g builds by itself: it has no Authorization header.
  unfoldable pub seed : World → World
  seed w =
      (do_request link server (record c { token = "" }) "POST" "/workflows/seed" "" nothing w).1

  -- A call of `update`, whose result is dropped.
  unfoldable pub perform_call : ApiCall → World → World
  perform_call (retry_dlq id) w = (Client.retry_dlq link server c id w).1
  perform_call (retry_compensation id) w = (Client.retry_compensation link server c id w).1
  perform_call (cancel_execution id) w = (Client.cancel_execution link server c id w).1
  perform_call (delete_schedule id) w = (Client.delete_schedule link server c id w).1
  perform_call (pause_schedule id) w = (Client.pause_schedule link server c id w).1
  perform_call (resume_schedule id) w = (Client.resume_schedule link server c id w).1
  perform_call (start_workflow id) w = (Client.start_workflow link server c id w).1
  perform_call (set_shipment_status d) w = (Client.set_shipment_status link server c d w).1
  perform_call post_seed w = seed w
  perform_call list_workflows w = (Client.list_workflows link server c w).1
  perform_call (create_schedule s) w = (Client.create_schedule link server c s w).1
