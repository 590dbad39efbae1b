-- ===== src/Invariant/System.antt =====
-- The invariant of every reachable state.
use flowscale.Prelude.{◌≡◌, refl, true}
use flowscale.Runtime.{Env, World}
use flowscale.Engine.Stable.Manual.{cancel-Keeps, retry_compensation-Keeps}
use flowscale.System.{
  Call, on_create, on_update, on_delete, on_start, on_cancel, on_delete_execution, on_retry,
  on_retry_compensation, on_delete_schedule, on_schedule, on_result, on_heartbeat, on_reap,
  on_publish, on_poll, on_work, on_beat, on_schedule_state, on_user, on_shipment, on_ask, perform,
  empty_tables, Reachable, initial, step,
}
use flowscale.Invariant.Holds.{Holds-Stable}
use flowscale.Invariant.Publisher.{Invariant, process_outbox-Invariant}
use flowscale.Invariant.Deletes.{delete_execution-Keeps, delete_workflow-Keeps}
use flowscale.Invariant.Definitions.{
  create_workflow-Keeps, update_workflow-Keeps, create_schedule-Keeps, delete_schedule-Keeps,
  publish-Keeps, update_schedule_state-Keeps, create_user-Keeps,
}
use flowscale.Invariant.Loops.{
  start-Keeps, dead_lettered-Keeps, consume_result-Invariant, consume_heartbeat-Invariant,
  reap_timeouts-Invariant, poll-Invariant, handle_delivery-Invariant,
}

perform-Invariant : (env : Env) (c : Call) (w : World) → Invariant w → Invariant (perform env c w)
unfolding perform
perform-Invariant env (on_create wf) w v = (create_workflow-Keeps env wf).at w v
perform-Invariant env (on_update wf) w v = (update_workflow-Keeps env wf).at w v
perform-Invariant env (on_delete id) w v = (delete_workflow-Keeps env id).at w v
perform-Invariant env (on_start id) w v = (start-Keeps env id).at w v
perform-Invariant env (on_cancel id) w v =
    (cancel-Keeps {may = λ s. true} (Holds-Stable id (λ s. true)) env refl).at w v
perform-Invariant env (on_delete_execution id) w v = (delete_execution-Keeps env id).at w v
perform-Invariant env (on_retry id) w v = (dead_lettered-Keeps env id).at w v
perform-Invariant env (on_retry_compensation id) w v =
    (retry_compensation-Keeps {may = λ s. true} (Holds-Stable id (λ s. true)) env refl).at w v
perform-Invariant env (on_delete_schedule id) w v = (delete_schedule-Keeps env id).at w v
perform-Invariant env (on_schedule s) w v = (create_schedule-Keeps env s).at w v
perform-Invariant env (on_result d) w v = consume_result-Invariant env d w v
perform-Invariant env (on_heartbeat d) w v = consume_heartbeat-Invariant env d w v
perform-Invariant env on_reap w v = reap_timeouts-Invariant env w v
perform-Invariant env on_publish w v = process_outbox-Invariant env w v
perform-Invariant env (on_poll leader) w v = poll-Invariant env leader w v
perform-Invariant env (on_work name e d) w v = handle_delivery-Invariant env name e d w v
perform-Invariant env (on_beat task) w v = (publish-Keeps env _).at w v
perform-Invariant env (on_schedule_state id s) w v = (update_schedule_state-Keeps env id _ s).at w v
perform-Invariant env (on_user user) w v = (create_user-Keeps env user).at w v
perform-Invariant env (on_shipment down) w v = v
perform-Invariant env on_ask w v = v

empty-Invariant : (w : World) → w.db ≡ empty_tables → Invariant w
empty-Invariant w e = record {
  consistent = rw e (record {
    execution_ids = tt;
    event_ids = tt;
    activity_ids = tt;
    keys = tt;
    outbox_ids = tt;
    activity_known = tt;
    event_known = tt;
  });
  dispatched = rw e (record { all_handed = tt });
}

-- In every reachable state, whatever calls have failed on the way: ids and idempotency keys are
-- unique, every activity and every event belongs to an execution that is there, and every PENDING
-- activity has its task in the outbox or at the broker, addressed to its own queue, at once or over a
-- tier that has a queue.
pub Reachable-Invariant : (env : Env) (w : World) → Reachable env w → Invariant w
Reachable-Invariant env _ (initial w e) = empty-Invariant w e
Reachable-Invariant env _ (step c w r) = perform-Invariant env c w (Reachable-Invariant env w r)
