-- ===== src/System.antt =====
-- The whole system as a machine: every entry point of the consumers, the three background loops
-- and the workers, and every operation that the API handlers ask for, is a call; a state is
-- reachable by a sequence of calls from empty tables.
use flowscale.Prelude.{◌≡◌, Bool, Option, none, [], String}
use flowscale.Models.{
  ActivityTaskMessage, ActivityResultMessage, Workflow, Schedule, ScheduleStatus, User,
}
use flowscale.Runtime.{Env, Db, World, tick}
use flowscale.Repository.ExecutionRepo.{delete_execution}
use flowscale.Repository.WorkflowRepo.{create_workflow, update_workflow, delete_workflow}
use flowscale.Repository.ScheduleRepo.{create_schedule, delete_schedule, update_schedule_state}
use flowscale.Repository.UserRepo.{create_user}
use flowscale.Engine.Start.{start_workflow}
use flowscale.Engine.Manual.{retry_dead_lettered_activity, retry_compensation, cancel}
use flowscale.Engine.Outbox.{process_outbox}
use flowscale.Engine.Consumers.{consume_result, consume_heartbeat, reap_timeouts}
use flowscale.Scheduler.{poll}
use flowscale.Worker.{GoError, handle_delivery, heartbeat}

-- A call to one of the processes.
pub data Call : Type 0 where
  on_create on_update : Workflow → Call
  on_delete on_start on_cancel on_delete_execution : String → Call
  on_retry on_retry_compensation on_delete_schedule : String → Call
  on_schedule : Schedule → Call
  on_result : Option ActivityResultMessage → Call
  on_heartbeat : Option String → Call
  on_reap on_publish : Call
  on_poll : Bool → Call
  on_work : String → Option GoError → Option ActivityTaskMessage → Call
  on_beat : ActivityTaskMessage → Call
  on_schedule_state : String → ScheduleStatus → Call
  on_user : User → Call
  on_shipment : Bool → Call
  on_ask : Call  -- a question to the outside, or a query

unfoldable pub perform : Env → Call → World → World
perform env (on_create wf) w = (create_workflow env wf w).1
perform env (on_update wf) w = (update_workflow env wf w).1
perform env (on_delete id) w = (delete_workflow env id w).1
perform env (on_start id) w = (start_workflow env id w).1
perform env (on_cancel id) w = (cancel env id w).1
perform env (on_delete_execution id) w = (delete_execution env id w).1
perform env (on_retry id) w = (retry_dead_lettered_activity env id w).1
perform env (on_retry_compensation id) w = (retry_compensation env id w).1
perform env (on_delete_schedule id) w = (delete_schedule env id w).1
perform env (on_schedule s) w = (create_schedule env s w).1
perform env (on_result d) w = (consume_result env d w).1
perform env (on_heartbeat d) w = (consume_heartbeat env d w).1
perform env on_reap w = reap_timeouts env w
perform env on_publish w = process_outbox env w
perform env (on_poll leader) w = (poll env leader w).1
perform env (on_work name e d) w = (handle_delivery env name (λ task w. (e, w)) d w).1
perform env (on_beat task) w = (heartbeat env task w).1
perform env (on_schedule_state id s) w = (update_schedule_state env id none s w).1
perform env (on_user user) w = (create_user env user w).1
perform env (on_shipment down) w = record (tick w) { shipment_down = down }
perform env on_ask w = tick w

-- The tables as the migrations leave them.
abbrev pub empty_tables : Db
empty_tables = record {
  workflows = [];
  activities = [];
  executions = [];
  events = [];
  activity_executions = [];
  outbox = [];
  schedules = [];
  users = [];
}

-- What a sequence of calls makes of empty tables.
pub data Reachable (env : Env) : World → Type 0 where
  initial : (w : World) → w.db ≡ empty_tables → Reachable env w
  step : (c : Call) (w : World) → Reachable env w → Reachable env (perform env c w)
