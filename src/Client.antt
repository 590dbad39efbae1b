-- ===== src/Client.antt =====
-- internal/client/client.go: the HTTP client of the TUI. A client is given the server as a
-- function from a request to its response; each method returns what the source returns, or an
-- error. Redirects are not followed: no path that the theorems are about leads to one.
pub mod Routes
use Prim.Native.String.{◌++◌}
use flowscale.Prelude.{
  ℕ, String, Option, none, some, List, Bool, true, false, leb, ◌==◌, if◌then◌else◌,
}
use flowscale.Models.{
  Workflow, Schedule, WorkflowExecution, WorkflowEvent, ActivityExecution, AuthRequest,
}
use flowscale.Strings.{before, behind}
use flowscale.Runtime.{World, tick}
use flowscale.Api.{
  Request, Body, workflow, workflows, execution, executions, events, activities, schedule,
  schedules, token, shipment, Response, Handler, Serving,
}

-- What is not in this repository: net/url's unescaping of a path, encoding/json, and the network,
-- which can lose a request before it is served or its response afterwards.
pub record Link : Type 0 where
  pub unescape_path : String → Option String
  pub encode_workflow : Workflow → String
  pub encode_start : String → String
  pub encode_schedule : Schedule → String
  pub encode_auth : AuthRequest → String
  pub encode_shipment : Bool → String
  pub loses_request : ℕ → Bool
  pub loses_response : ℕ → Bool

-- The fields that the methods use; the base URL is that of the server.
pub record Client : Type 0 where
  pub token : String

pub data Outcome (A : Type 0) : Type 0 where
  done : A → Outcome A
  api_error : ℕ → Body → Outcome A
  failed : Outcome A

abbrev pub authorization_of : Client → String
authorization_of c = if c.token == "" then "" else "Bearer " ++ c.token

-- http.NewRequest parses the URL: the fragment is cut off, then the query.
abbrev pub with_path : Client → String → String → String → Option String → Option Request
with_path c method body query none = none
with_path c method body query (some path) = some record {
  method = method;
  path = path;
  query = query;
  authorization = authorization_of c;
  body = body;
}

unfoldable pub new_request : Link → Client → String → String → String → Option Request
unfolding before behind
new_request link c method target body =
    with_path c method body (behind (before target b'#') b'?')
      (link.unescape_path (before (before target b'#') b'?'))

-- `res.StatusCode >= 400`, and the decoding of the body into `out`.
abbrev decoded : {A : Type 0} → Option A → Outcome A
decoded none = failed
decoded (some a) = done a

abbrev received : {A : Type 0} → (Body → Option A) → Response → Outcome A
received out res =
    if leb 400 res.status then api_error res.status res.body else decoded (out res.body)

-- `c.HTTPClient.Do` and what follows it, for a request that is served by `f`.
abbrev pub arrived : {A : Type 0} → Link → (Body → Option A) → Response × World → Outcome A × World
arrived link out (res, w) =
    (if link.loses_response w.calls then failed else received out res, tick w)

unfoldable pub exchange :
    {A : Type 0} → Link → (Body → Option A) → Serving → World → Outcome A × World
exchange link out f w =
    let there = arrived link out (f (tick w)) in
    if link.loses_request w.calls then (failed, tick w) else there

-- No `out` is given.
abbrev pub nothing : Body → Option (Unit {0})
nothing b = some tt

abbrev pub as_token : Body → Option String
as_token (token r) = some r.token
as_token b = none

abbrev pub as_workflows : Body → Option (List Workflow)
as_workflows (workflows ws) = some ws
as_workflows b = none

abbrev pub as_workflow : Body → Option Workflow
as_workflow (workflow wf) = some wf
as_workflow b = none

abbrev pub as_execution : Body → Option WorkflowExecution
as_execution (execution e) = some e
as_execution b = none

abbrev pub as_executions : Body → Option (List WorkflowExecution)
as_executions (executions es) = some es
as_executions b = none

abbrev pub as_events : Body → Option (List WorkflowEvent)
as_events (events es) = some es
as_events b = none

abbrev pub as_activities : Body → Option (List ActivityExecution)
as_activities (activities acts) = some acts
as_activities b = none

abbrev pub as_schedules : Body → Option (List Schedule)
as_schedules (schedules ss) = some ss
as_schedules b = none

abbrev pub as_schedule : Body → Option Schedule
as_schedule (schedule s) = some s
as_schedule b = none

abbrev pub as_shipment : Body → Option Bool
as_shipment (shipment down) = some down
as_shipment b = none

module _ (link : Link) (server : Handler) where
  abbrev pub sent : {A : Type 0} → (Body → Option A) → Option Request → World → Outcome A × World
  sent out none w = (failed, w)
  sent out (some r) w = exchange link out (server r) w

  -- `do`; an absent body is the empty text, and `out` reads the body of the response.
  unfoldable pub do_request :
      {A : Type 0}
      → Client
      → String
      → String
      → String
      → (Body → Option A)
      → World
      → Outcome A × World
  unfolding new_request
  do_request c method target body out = sent out (new_request link c method target body)

  abbrev keep_token : Client → Outcome String × World → Client × World
  keep_token c (done t, w) = (record c { token = t }, w)
  keep_token c (o, w) = (c, w)

  -- The token is kept where the login succeeds.
  unfoldable pub login : Client → AuthRequest → World → Client × World
  login c req w =
      keep_token c (do_request c "POST" "/api/auth/login" (link.encode_auth req) as_token w)

  unfoldable pub list_workflows : Client → World → Outcome (List Workflow) × World
  list_workflows c = do_request c "GET" "/workflows" "" as_workflows

  unfoldable pub create_workflow : Client → Workflow → World → Outcome Workflow × World
  create_workflow c wf = do_request c "POST" "/workflows" (link.encode_workflow wf) as_workflow

  unfoldable pub start_workflow : Client → String → World → Outcome WorkflowExecution × World
  start_workflow c id = do_request c "POST" "/workflows/start" (link.encode_start id) as_execution

  -- A filter that is empty is left out.
  abbrev filter_by : String → String → String
  filter_by key value = if value == "" then "" else key ++ "=" ++ value ++ "&"

  unfoldable pub executions_target : String → String → String → String
  executions_target status workflow_id range =
      "/executions?"
      ++ filter_by "status" status
      ++ filter_by "workflow_id" workflow_id
      ++ filter_by "time_range" range

  unfoldable pub list_executions :
      Client → String → String → String → World → Outcome (List WorkflowExecution) × World
  unfolding executions_target
  list_executions c status workflow_id range =
      do_request c "GET" (executions_target status workflow_id range) "" as_executions

  unfoldable pub get_execution : Client → String → World → Outcome WorkflowExecution × World
  get_execution c id = do_request c "GET" ("/executions/" ++ id) "" as_execution

  unfoldable pub get_execution_events :
      Client → String → World → Outcome (List WorkflowEvent) × World
  get_execution_events c id = do_request c "GET" ("/executions/" ++ id ++ "/events") "" as_events

  unfoldable pub cancel_execution : Client → String → World → Outcome (Unit {0}) × World
  cancel_execution c id = do_request c "POST" ("/executions/" ++ id ++ "/cancel") "" nothing

  unfoldable pub retry_compensation : Client → String → World → Outcome (Unit {0}) × World
  retry_compensation c id =
      do_request c "POST" ("/executions/" ++ id ++ "/compensate/retry") "" nothing

  unfoldable pub list_dlq : Client → World → Outcome (List ActivityExecution) × World
  list_dlq c = do_request c "GET" "/activities/dlq" "" as_activities

  unfoldable pub retry_dlq : Client → String → World → Outcome (Unit {0}) × World
  retry_dlq c id = do_request c "POST" ("/activities/dlq/" ++ id ++ "/retry") "" nothing

  unfoldable pub list_schedules : Client → World → Outcome (List Schedule) × World
  list_schedules c = do_request c "GET" "/schedules" "" as_schedules

  unfoldable pub create_schedule : Client → Schedule → World → Outcome Schedule × World
  create_schedule c s = do_request c "POST" "/schedules" (link.encode_schedule s) as_schedule

  unfoldable pub delete_schedule : Client → String → World → Outcome (Unit {0}) × World
  delete_schedule c id = do_request c "DELETE" ("/schedules/" ++ id) "" nothing

  unfoldable pub pause_schedule : Client → String → World → Outcome (Unit {0}) × World
  pause_schedule c id = do_request c "POST" ("/schedules/" ++ id ++ "/pause") "" nothing

  unfoldable pub resume_schedule : Client → String → World → Outcome (Unit {0}) × World
  resume_schedule c id = do_request c "POST" ("/schedules/" ++ id ++ "/resume") "" nothing

  unfoldable pub get_shipment_status : Client → World → Outcome Bool × World
  get_shipment_status c = do_request c "GET" "/demo/shipment-status" "" as_shipment

  unfoldable pub set_shipment_status : Client → Bool → World → Outcome (Unit {0}) × World
  set_shipment_status c down =
      do_request c "POST" "/demo/shipment-status" (link.encode_shipment down) nothing
