-- ===== src/Scheduler.antt =====
-- internal/scheduler/scheduler.go: leadership, a poll, and the next run of a schedule.
pub mod Cluster
pub mod Due
use flowscale.Prelude.{
  ℕ, suc, ◌+◌, ◌-◌, String, Option, none, some, List, [], ◌∷◌, Bool, true, false, ◌==◌,
  if◌then◌else◌,
}
use flowscale.Models.{
  ℤ, pos, negsuc, Schedule, once, delayed, recurring, other, active, finished, WorkflowExecution,
}
use flowscale.Runtime.{Env, World, Result, ok, err, tick}
use flowscale.Repository.ScheduleRepo.{get_due_schedules, update_schedule_state}
use flowscale.Engine.Start.{start_workflow}

-- now.Add(d); a time before the epoch is the epoch.
abbrev pub add_duration : ℕ → ℤ → ℕ
add_duration now (pos n) = now + n
add_duration now (negsuc n) = now - suc n

-- The state that a schedule is given after a run: none leaves it, as for an unknown type.
pub data Next : Type 0 where
  finish : Next
  run_at : ℕ → Next
  leave : Next

abbrev pub next_cron_run : ℕ → Option (ℕ → ℕ) → Next
next_cron_run now none = finish
next_cron_run now (some next) = run_at (next now)

abbrev pub next_interval_run : ℕ → Option ℤ → Next
next_interval_run now none = finish
next_interval_run now (some d) = run_at (add_duration now d)

-- The tests of `advanceSchedule`, without the writes.
unfoldable pub next_run : Env → Schedule → ℕ → Next
next_run env sched now = elim sched.schedule_type [
  | once ↦ finish
  | delayed ↦ finish
  | recurring ↦
      if sched.cron_expression == ""
      then (if sched.interval == ""
          then finish
          else next_interval_run now (env.parse_duration sched.interval))
      else next_cron_run now (env.next_cron sched.cron_expression)
  | other s ↦ leave
]

abbrev pub apply_next : Env → String → Next → World → World
apply_next env id finish w = (update_schedule_state env id none finished w).1
apply_next env id (run_at t) w = (update_schedule_state env id (some t) active w).1
apply_next env id leave w = w

unfoldable pub advance_schedule : Env → Schedule → ℕ → World → World
advance_schedule env sched now w = apply_next env sched.id (next_run env sched now) w

-- A schedule whose workflow does not start is left as it is.
abbrev pub after_start : Env → Schedule → ℕ → Result WorkflowExecution → World → World
after_start env sched now (err e) w = w
after_start env sched now (ok exec) w = advance_schedule env sched now w

unfoldable pub run_schedule : Env → ℕ → Schedule → World → World
run_schedule env now sched w =
    let (r, w') = start_workflow env sched.workflow_id w in after_start env sched now r w'

unfoldable pub run_schedules : Env → ℕ → List Schedule → World → World
run_schedules env now [] w = w
run_schedules env now (s ∷ ss) w = run_schedules env now ss (run_schedule env now s w)

abbrev pub run_found : Env → ℕ → Result (List Schedule) → World → World
run_found env now (err e) w = w
run_found env now (ok ss) w = run_schedules env now ss w

-- `leader` says whether this scheduler holds the connection with lock 1000. A leader pings that
-- connection; any other takes a connection and tries the lock.
unfoldable pub try_acquire_lock : Env → Bool → World → Bool × World
try_acquire_lock env true w = (if env.db_fails w.calls then false else true, tick w)
try_acquire_lock env false w =
    if env.db_fails w.calls
    then (false, tick w)
    else let w' = tick w in
      (if env.db_fails w'.calls then false else env.lock_granted w'.calls, tick w')

unfoldable pub poll : Env → Bool → World → Bool × World
poll env leader w =
    let (leader', w') = try_acquire_lock env leader w in
    if leader'
    then (
      true,
      let now = env.now w'.calls in
          let (r, w'') = get_due_schedules env now (tick w') in run_found env now r w'',
    )
    else (false, w')
