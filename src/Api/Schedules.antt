-- ===== src/Api/Schedules.antt =====
-- internal/api/schedule_handler.go
use flowscale.Prelude.{ℕ, String, Option, none, some, ◌==◌, ◌&&◌, if◌then◌else◌}
use flowscale.Models.{ℤ, Schedule, active, paused, once, delayed, recurring, other}
use flowscale.Strings.{trim_prefix, trim_suffix, has_prefix, has_suffix}
use flowscale.Runtime.{Env}
use flowscale.Repository.ScheduleRepo.{
  create_schedule, list_schedules, delete_schedule, update_schedule_state,
}
use flowscale.Scheduler.{add_duration}
use flowscale.Api.{
  Request, Outside, no_body, text, error, schedule, schedules, respond, not_found, Serving, stop,
  replying, asking, decoded,
}

-- The first run of a new schedule, or the text of the refusal.
pub data FirstRun : Type 0 where
  first_at : ℕ → FirstRun
  refused : String → FirstRun

abbrev run_or_now : ℕ → Option ℕ → FirstRun
run_or_now now none = first_at now
run_or_now now (some t) = first_at t

abbrev cron_run : ℕ → Option (ℕ → ℕ) → FirstRun
cron_run now none = refused "invalid cron expression"
cron_run now (some next) = first_at (next now)

abbrev interval_run : ℕ → Option ℤ → FirstRun
interval_run now none = refused "invalid interval"
interval_run now (some d) = first_at (add_duration now d)

-- The switch on the schedule's type.
unfoldable pub first_run : Env → Schedule → ℕ → FirstRun
first_run env sched now = elim sched.schedule_type [
  | once ↦ run_or_now now sched.run_at
  | delayed ↦ run_or_now now sched.run_at
  | recurring ↦
      if sched.cron_expression == ""
      then (if sched.interval == ""
          then refused "recurring schedule requires cron_expression or interval"
          else interval_run now (env.parse_duration sched.interval))
      else cron_run now (env.next_cron sched.cron_expression)
  | other s ↦ refused "invalid schedule_type"
]

module _ (env : Env) (out : Outside) where
  abbrev pub add_schedule : Schedule → Serving
  add_schedule sched =
      replying (λ u. respond 201 (schedule sched)) (λ e. respond 500 (error e))
        (create_schedule env sched)

  abbrev pub create_at : Schedule → FirstRun → Serving
  create_at sched (refused why) = stop (respond 400 (text why))
  create_at sched (first_at t) = add_schedule (record sched { next_run_at = t })

  -- What the handler sets whatever the body says: the id, the status, and readings of the clock.
  abbrev pub stamped : Schedule → String → ℕ → ℕ → Schedule
  stamped sched id created updated = record sched {
    id = id;
    status = active;
    created_at = created;
    updated_at = updated;
  }

  unfoldable pub create_stamped : Schedule → Serving
  create_stamped sched = asking env.uuid λ id. asking env.now λ created. asking env.now λ updated.
      asking env.now λ now.
        create_at (stamped sched id created updated)
          (first_run env (stamped sched id created updated) now)

  unfoldable pub handle_create : Request → Serving
  handle_create r = decoded (out.decode_schedule r.body) "invalid json" create_stamped

  unfoldable pub handle_list : Serving
  handle_list =
      replying (λ ss. respond 200 (schedules ss)) (λ e. respond 500 (error e)) (list_schedules env)

  unfoldable pub handle_delete : String → Serving
  handle_delete id =
      replying (λ u. respond 204 no_body) (λ e. respond 500 (error e)) (delete_schedule env id)

  unfoldable pub handle_pause : String → Serving
  handle_pause id =
      replying (λ u. respond 200 no_body) (λ e. respond 500 (error e))
        (update_schedule_state env id none paused)

  unfoldable pub handle_resume : String → Serving
  handle_resume id =
      replying (λ u. respond 200 no_body) (λ e. respond 500 (error e))
        (update_schedule_state env id none active)

  unfoldable pub schedule_handler : Request → Serving
  schedule_handler r =
      let path = trim_prefix r.path "/" in
      let id = trim_prefix path "schedules/" in
      if r.method == "POST" && path == "schedules"
      then handle_create r
      else if r.method == "GET" && path == "schedules"
      then handle_list
      else if r.method == "POST" && has_prefix path "schedules/" && has_suffix path "/pause"
      then handle_pause (trim_suffix id "/pause")
      else if r.method == "POST" && has_prefix path "schedules/" && has_suffix path "/resume"
      then handle_resume (trim_suffix id "/resume")
      else if r.method == "DELETE" && has_prefix path "schedules/"
      then handle_delete id
      else stop not_found
