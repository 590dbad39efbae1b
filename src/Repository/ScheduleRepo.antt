-- ===== src/Repository/ScheduleRepo.antt =====
-- internal/repository/workflow_repo.go: the methods on `scheduled_workflows`.
use flowscale.Prelude.{
  ℕ, String, Option, none, some, List, [], ◌∷◌, ◌++◌, Bool, true, false, leb, ◌==◌, any, select,
  update, delete, sort_by, ◌&&◌, if◌then◌else◌,
}
use flowscale.Models.{Schedule, ScheduleStatus, active}
use flowscale.Runtime.{
  Env, M, ok, err, tx, query, unique_violation, foreign_key_violation, schedule_not_found,
}
use flowscale.Repository.Sql.{has_workflow_id}

abbrev pub has_schedule_id : String → Schedule → Bool
has_schedule_id id s = s.id == id

unfoldable pub create_schedule : Env → Schedule → M Unit
create_schedule env schedule = tx env λ now db.
    if any (has_schedule_id schedule.id) db.schedules
    then err unique_violation
    else if any (has_workflow_id schedule.workflow_id) db.workflows
    then ok (record db { schedules = db.schedules ++ schedule ∷ [] })
    else err foreign_key_violation

-- ORDER BY created_at DESC
unfoldable pub list_schedules : Env → M (List Schedule)
list_schedules env =
    query env λ db. ok (sort_by (λ s t. leb t.created_at s.created_at) db.schedules)

unfoldable pub delete_schedule : Env → String → M Unit
delete_schedule env id = tx env λ now db.
    if any (has_schedule_id id) db.schedules
    then ok (record db { schedules = delete (has_schedule_id id) db.schedules })
    else err schedule_not_found

abbrev pub is_active : ScheduleStatus → Bool
is_active active = true
is_active _ = false

-- WHERE next_run_at <= $1 AND status = 'ACTIVE'
abbrev pub is_due : ℕ → Schedule → Bool
is_due now s = leb s.next_run_at now && is_active s.status

unfoldable pub due_in : ℕ → List Schedule → List Schedule
due_in now schedules = select (is_due now) schedules

abbrev pub get_due_schedules : Env → ℕ → M (List Schedule)
get_due_schedules env now = query env λ db. ok (due_in now db.schedules)

abbrev pub set_state : Option ℕ → ScheduleStatus → ℕ → Schedule → Schedule
set_state none status now s = record s { status = status; updated_at = now }
set_state (some next) status now s = record s {
  next_run_at = next;
  status = status;
  updated_at = now;
}

unfoldable pub update_schedule_state : Env → String → Option ℕ → ScheduleStatus → M Unit
update_schedule_state env id next_run_at status = tx env λ now db. ok (record db {
  schedules = update (has_schedule_id id) (set_state next_run_at status now) db.schedules;
})
