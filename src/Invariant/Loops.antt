-- ===== src/Invariant/Loops.antt =====
-- Every entry point of the API handlers, the consumers, the background loops and the workers keeps
-- the invariant, whatever fails on the way.
use flowscale.Prelude.{
  ℕ, refl, inl, inr, Bool, true, false, Bool-cases, Option, none, some, List, [], ◌∷◌, String,
  if◌then◌else◌, ◌==◌, ◌-◌,
}
use flowscale.Models.{
  ExecutionStatus, ActivityExecution, ActivityTaskMessage, ActivityResultMessage, WorkflowExecution,
  Schedule,
}
use flowscale.Runtime.{Env, ActivityExecutionRow, World, Result, ok, err, query, tick}
use flowscale.Runtime.Keeps.{Keeps, Keeps-query}
use flowscale.Repository.ScheduleRepo.{get_due_schedules}
use flowscale.Engine.Start.{start_workflow}
use flowscale.Engine.Success.{report_activity_success}
use flowscale.Engine.Failure.{report_activity_failure}
use flowscale.Engine.Manual.{retry_dead_lettered_activity}
use flowscale.Engine.Consumers.{
  acked, report, consume_result, consume_heartbeat, timeout_duration, fail_all, reap_stale,
  reap_timeouts,
}
use flowscale.Engine.Stable.Success.{report_activity_success-Keeps}
use flowscale.Engine.Stable.Failure.{report_activity_failure-Keeps}
use flowscale.Engine.Stable.Manual.{retry_dead_lettered_activity-Keeps}
use flowscale.Engine.Stable.Start.{start_workflow-Keeps}
use flowscale.Scheduler.{
  Next, finish, run_at, leave, next_run, apply_next, advance_schedule, run_schedule, run_schedules,
  after_start, run_found, try_acquire_lock, poll,
}
use flowscale.Worker.{GoError, handle_delivery, run_task, is_duplicate}
use flowscale.Repository.ExecutionQueries.{get_activity_execution}
use flowscale.Invariant.Holds.{Holds, Holds-Stable, Holds-StableStart}
use flowscale.Invariant.Publisher.{Invariant}
use flowscale.Invariant.Deletes.{record_heartbeat-Keeps}
use flowscale.Invariant.Definitions.{update_schedule_state-Keeps, publish-Keeps}

module _ (env : Env) where
  any_status : ExecutionStatus → Bool
  any_status s = true

  success-Keeps : (id eid name : String) → Keeps Holds (report_activity_success env id eid name)
  unfolding any_status
  success-Keeps id eid name =
      report_activity_success-Keeps (Holds-Stable eid any_status) env refl refl refl id name

  failure-Keeps :
      (id eid name : String) (non_retryable : Bool)
      → Keeps Holds (report_activity_failure env id eid name non_retryable)
  unfolding any_status
  failure-Keeps id eid name non_retryable =
      report_activity_failure-Keeps (Holds-Stable eid any_status) env refl refl id name
        non_retryable

  pub start-Keeps : (id : String) → Keeps Holds (start_workflow env id)
  unfolding any_status
  start-Keeps id =
      start_workflow-Keeps {may = any_status} (λ eid. Holds-Stable eid any_status) Holds-StableStart
        env id

  pub dead_lettered-Keeps : (id : String) → Keeps Holds (retry_dead_lettered_activity env id)
  unfolding any_status
  dead_lettered-Keeps id =
      retry_dead_lettered_activity-Keeps {may = any_status} (λ eid. Holds-Stable eid any_status) env
        refl refl id

  report-Keeps : (res : ActivityResultMessage) → Keeps Holds (report env res)
  unfolding report
  report-Keeps res = elim (Bool-cases res.success) [
    | inl e ↦ rw e (success-Keeps res.activity_id res.execution_id res.activity_name)
    | inr e ↦
        rw e (failure-Keeps res.activity_id res.execution_id res.activity_name res.non_retryable)
  ]

  -- The consumers, the reaper and the scheduler.
  pub consume_result-Invariant :
      (d : Option ActivityResultMessage) (w : World)
      → Invariant w
      → Invariant (consume_result env d w).1
  unfolding consume_result
  consume_result-Invariant none w v = v
  consume_result-Invariant (some res) w v = (report-Keeps res).at w v

  pub consume_heartbeat-Invariant :
      (d : Option String) (w : World) → Invariant w → Invariant (consume_heartbeat env d w).1
  unfolding consume_heartbeat
  consume_heartbeat-Invariant none w v = v
  consume_heartbeat-Invariant (some id) w v = elim (Bool-cases (id == "")) [
    | inl e ↦ rw e v
    | inr e ↦ rw e ((record_heartbeat-Keeps env id).at w v)
  ]

  fail_all-Invariant :
      (rows : List ActivityExecutionRow) (w : World) → Invariant w → Invariant (fail_all env rows w)
  unfolding fail_all
  fail_all-Invariant [] w v = v
  fail_all-Invariant (row ∷ rows) w v =
      fail_all-Invariant rows _
        ((failure-Keeps row.act.id row.act.execution_id row.act.activity_name false).at w v)

  ticked : (w : World) → Invariant w → Invariant (tick w)
  ticked w v = record { consistent = v.consistent; dispatched = v.dispatched }

  if-Invariant :
      (t : Bool) (x y : World) → Invariant x → Invariant y → Invariant (if t then x else y)
  if-Invariant true x y v v' = v
  if-Invariant false x y v v' = v'

  reap_stale-Invariant : (t : ℕ) (w : World) → Invariant w → Invariant (reap_stale env t w)
  unfolding reap_stale query
  reap_stale-Invariant t w v = elim (Bool-cases (env.db_fails w.calls)) [
    | inl down ↦ rw down (ticked w v)
    | inr up ↦ rw up (fail_all-Invariant _ (tick w) (ticked w v))
  ]

  pub reap_timeouts-Invariant : (w : World) → Invariant w → Invariant (reap_timeouts env w)
  unfolding reap_timeouts
  reap_timeouts-Invariant w v =
      let w₁ : World = tick w in
      let w₂ : World = tick w₁ in
      let reaped : World = reap_stale env (env.now w₁.calls - timeout_duration) w₂ in
      let v₁ : Invariant w₁ = ticked w v in
      let v₂ : Invariant w₂ = ticked w₁ v₁ in
      if-Invariant (env.db_fails w.calls) w₁ _ v₁ (
        if-Invariant (env.db_fails w₁.calls) w₂ _ v₂ (
          if-Invariant (env.lock_granted w₁.calls) (tick reaped) w₂
            (ticked reaped (reap_stale-Invariant _ w₂ v₂)) v₂))

  apply_next-Invariant :
      (id : String) (n : Next) (w : World) → Invariant w → Invariant (apply_next env id n w)
  apply_next-Invariant id finish w v = (update_schedule_state-Keeps env id none _).at w v
  apply_next-Invariant id (run_at t) w v = (update_schedule_state-Keeps env id (some t) _).at w v
  apply_next-Invariant id leave w v = v

  run_schedule-Invariant :
      (now : ℕ) (s : Schedule) (w : World) → Invariant w → Invariant (run_schedule env now s w)
  unfolding run_schedule advance_schedule
  run_schedule-Invariant now s w v =
      let (r, w') = start_workflow env s.workflow_id w in
      go r w' ((start-Keeps s.workflow_id).at w v)
    where
      go :
          (r : Result WorkflowExecution) (w' : World)
          → Invariant w'
          → Invariant (after_start env s now r w')
      go (err e) w' v = v
      go (ok exec) w' v = apply_next-Invariant s.id (next_run env s now) w' v

  run_schedules-Invariant :
      (now : ℕ) (ss : List Schedule) (w : World)
      → Invariant w
      → Invariant (run_schedules env now ss w)
  unfolding run_schedules
  run_schedules-Invariant now [] w v = v
  run_schedules-Invariant now (s ∷ ss) w v =
      run_schedules-Invariant now ss _ (run_schedule-Invariant now s w v)

  try_acquire_lock-Invariant :
      (leader : Bool) (w : World) → Invariant w → Invariant (try_acquire_lock env leader w).1
  unfolding try_acquire_lock
  try_acquire_lock-Invariant true w v = ticked w v
  try_acquire_lock-Invariant false w v = elim (Bool-cases (env.db_fails w.calls)) [
    | inl e ↦ rw e (ticked w v)
    | inr e ↦ rw e (ticked (tick w) (ticked w v))
  ]

  run_found-Invariant :
      (now : ℕ) (w : World)
      → Invariant w
      → Invariant (let (r, w') = get_due_schedules env now w in run_found env now r w')
  unfolding query
  run_found-Invariant now w v = elim (Bool-cases (env.db_fails w.calls)) [
    | inl e ↦ rw e (ticked w v)
    | inr e ↦ rw e (run_schedules-Invariant now _ (tick w) (ticked w v))
  ]

  pub poll-Invariant : (leader : Bool) (w : World) → Invariant w → Invariant (poll env leader w).1
  unfolding poll
  poll-Invariant leader w v =
      let (leads, w') = try_acquire_lock env leader w in
      go leads w' (try_acquire_lock-Invariant leader w v)
    where
      go :
          (leads : Bool) (w' : World)
          → Invariant w'
          → (let round : Bool × World =
                if leads
                then (
                  true,
                  let now = env.now w'.calls in
                      let (r, w'') = get_due_schedules env now (tick w') in run_found env now r w'',
                )
                else (false, w') in
              Invariant round.1)
      go true w' v = run_found-Invariant (env.now w'.calls) (tick w') (ticked w' v)
      go false w' v = v

  run_task-Invariant :
      (name : String) (e : Option GoError) (task : ActivityTaskMessage) (w : World)
      → Invariant w
      → Invariant (run_task env name (λ task w. (e, w)) task w).1
  unfolding run_task
  run_task-Invariant name e task w v = (publish-Keeps env _).at w v

  -- A worker whose function leaves the world: it reads, and publishes a result.
  pub handle_delivery-Invariant :
      (name : String) (e : Option GoError) (d : Option ActivityTaskMessage) (w : World)
      → Invariant w
      → Invariant (handle_delivery env name (λ task w. (e, w)) d w).1
  unfolding handle_delivery
  handle_delivery-Invariant name e none w v = v
  handle_delivery-Invariant name e (some task) w v =
      let (r, w') = get_activity_execution env task.activity_id w in
      go r w' ((Keeps-query {Q = Holds} env _).at w v)
    where
      go :
          (r : Result ActivityExecution) (w' : World)
          → Invariant w'
          → Invariant
              (if is_duplicate r
                then (acked, w')
                else run_task env name (λ task w. (e, w)) task w').1
      go r w' v = elim (Bool-cases (is_duplicate r)) [
        | inl d ↦ rw d v
        | inr d ↦ rw d (run_task-Invariant name e task w' v)
      ]
