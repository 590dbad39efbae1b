-- ===== src/Api/Calls/Handlers.antt =====
-- Each handler but the seeding one makes at most one writing call, the one that it is named for.
use flowscale.Prelude.{ℕ, refl, inl, inr, Bool-cases, Option, none, some, String, find, ◌==◌, Bool}
use flowscale.Models.{Workflow, Schedule, AuthRequest, User, active, paused}
use flowscale.Runtime.{Env, Error, db_error, Result, ok, err, query, tick}
use flowscale.System.{
  perform, on_create, on_update, on_delete, on_delete_schedule, on_schedule, on_schedule_state,
  on_shipment,
}
use flowscale.Repository.Listings.{list_workflows}
use flowscale.Repository.WorkflowRepo.{update_workflow}
use flowscale.Repository.ScheduleRepo.{list_schedules}
use flowscale.Repository.UserRepo.{get_user_by_username}
use flowscale.Api.{Request, Outside, Response, replying}
use flowscale.Api.Workflows
use flowscale.Api.Workflows.{
  create_as, create_named, update_as, handle_update, workflow_handler, with_id,
}
use flowscale.Api.Schedules
use flowscale.Api.Schedules.{
  FirstRun, first_at, refused, first_run, create_at, stamped, create_stamped, handle_pause,
  handle_resume, schedule_handler,
}
use flowscale.Api.Auth.{give_token, checked, login, auth_handler}
use flowscale.Api.Demo.{get_shipment_status, set_shipment, set_shipment_status, demo_handler}
use flowscale.Api.Health.{ready}
use flowscale.Api.Calls.{
  Called-refl, Called-tick, Called-call, Within, Within-stop, Within-decoded, Within-replying,
  Within-reading, query-Called, within_rules,
}

module _ (env : Env) (out : Outside) where
  create_as-Within : (wf : Workflow) (id : String) → Within env 1 (create_as env out wf id)
  unfolding create_as perform
  create_as-Within wf id = Within-replying _ _ (on_create (with_id id wf)) _ (λ w. refl)

  create_named-Within : (wf : Workflow) → Within env 1 (create_named env out wf)
  unfolding create_named
  create_named-Within wf = search (within_rules, create_as-Within) depth 8

  updates-Within :
      (good : Unit → Response) (bad : Error → Response) (wf : Workflow)
      → Within env 1 (replying good bad (update_workflow env wf))
  unfolding perform
  updates-Within good bad wf = Within-replying good bad (on_update wf) _ (λ w. refl)

  update_as-Within : (id : String) (wf : Workflow) → Within env 1 (update_as env out id wf)
  unfolding update_as
  update_as-Within id wf = search (within_rules, updates-Within) depth 8

  handle_create-Within : (r : Request) → Within env 1 (Workflows.handle_create env out r)
  unfolding Workflows.handle_create
  handle_create-Within r = Within-decoded _ _ _ create_named-Within

  handle_update-Within : (id : String) (r : Request) → Within env 1 (handle_update env out id r)
  unfolding handle_update
  handle_update-Within id r = Within-decoded _ _ _ (update_as-Within id)

  workflow_get-Within : (id : String) → Within env 1 (Workflows.handle_get env out id)
  unfolding Workflows.handle_get
  workflow_get-Within id = Within-reading _ _ _ (query-Called env _ 1)

  workflow_list-Within : (r : Request) → Within env 1 (Workflows.handle_list env out r)
  unfolding Workflows.handle_list list_workflows
  workflow_list-Within r = Within-reading _ _ _ (query-Called env _ 1)

  workflow_delete-Within : (id : String) → Within env 1 (Workflows.handle_delete env out id)
  unfolding Workflows.handle_delete perform
  workflow_delete-Within id = Within-replying _ _ (on_delete id) _ (λ w. refl)

  pub workflow_handler-Within : (r : Request) → Within env 1 (workflow_handler env out r)
  unfolding workflow_handler
  workflow_handler-Within r =
      search
        (
          within_rules, handle_create-Within, handle_update-Within, workflow_get-Within,
          workflow_list-Within, workflow_delete-Within,
        )
        depth 12

  create_at-Within : (s : Schedule) (run : FirstRun) → Within env 1 (create_at env out s run)
  unfolding perform
  create_at-Within s (refused why) = Within-stop _
  create_at-Within s (first_at t) =
      Within-replying _ _ (on_schedule (record s { next_run_at = t })) _ (λ w. refl)

  create_stamped-Within : (s : Schedule) → Within env 1 (create_stamped env out s)
  unfolding create_stamped
  create_stamped-Within s = search (within_rules, create_at-Within) depth 8

  schedule_create-Within : (r : Request) → Within env 1 (Schedules.handle_create env out r)
  unfolding Schedules.handle_create
  schedule_create-Within r = Within-decoded _ _ _ create_stamped-Within

  schedule_list-Within : Within env 1 (Schedules.handle_list env out)
  unfolding Schedules.handle_list list_schedules
  schedule_list-Within = Within-reading _ _ _ (query-Called env _ 1)

  schedule_delete-Within : (id : String) → Within env 1 (Schedules.handle_delete env out id)
  unfolding Schedules.handle_delete perform
  schedule_delete-Within id = Within-replying _ _ (on_delete_schedule id) _ (λ w. refl)

  pause-Within : (id : String) → Within env 1 (handle_pause env out id)
  unfolding handle_pause perform
  pause-Within id = Within-replying _ _ (on_schedule_state id paused) _ (λ w. refl)

  resume-Within : (id : String) → Within env 1 (handle_resume env out id)
  unfolding handle_resume perform
  resume-Within id = Within-replying _ _ (on_schedule_state id active) _ (λ w. refl)

  pub schedule_handler-Within : (r : Request) → Within env 1 (schedule_handler env out r)
  unfolding schedule_handler
  schedule_handler-Within r =
      search
        (
          within_rules, schedule_create-Within, schedule_list-Within, schedule_delete-Within,
          pause-Within, resume-Within,
        )
        depth 12

  checked-Within :
      {n : ℕ} (req : AuthRequest) (o : Result (Option User)) → Within env n (checked env out req o)
  unfolding give_token
  checked-Within req (err e) = Within-stop _
  checked-Within req (ok none) = Within-stop _
  checked-Within req (ok (some user)) = search (within_rules) depth 8

  login-Within : {n : ℕ} (req : AuthRequest) → Within env n (login env out req)
  unfolding login get_user_by_username query
  login-Within {n} req = record {
    at = λ w. Called-tick env n w _ (elim (Bool-cases (env.db_fails w.calls)) [
      | inl e ↦ rw e ((checked-Within req (err db_error)).at (tick w))
      | inr e ↦ rw e (
          (checked-Within req (ok (find (λ u. u.username == req.username) w.db.users))).at (tick w))
    ]);
  }

  pub auth_handler-Within : {n : ℕ} (r : Request) → Within env n (auth_handler env out r)
  unfolding auth_handler
  auth_handler-Within r = search (within_rules, login-Within) depth 8

  set_shipment-Within : (down : Bool) → Within env 1 (set_shipment out down)
  unfolding set_shipment perform
  set_shipment-Within down = record {
    at = λ w. elim (Bool-cases (out.files_fail w.calls)) [
      | inl e ↦ rw e (Called-tick env 1 w _ (Called-refl env 1 _))
      | inr e ↦ rw e (Called-call env (on_shipment down) w)
    ];
  }

  get_shipment-Within : Within env 1 (get_shipment_status out)
  unfolding get_shipment_status
  get_shipment-Within = record { at = λ w. Called-tick env 1 w _ (Called-refl env 1 _) }

  pub demo_handler-Within : (r : Request) → Within env 1 (demo_handler out r)
  unfolding demo_handler set_shipment_status
  demo_handler-Within r = search (within_rules, get_shipment-Within, set_shipment-Within) depth 8

  pub ready-Within : {n : ℕ} → Within env n (ready env)
  unfolding ready
  ready-Within = search (within_rules) depth 12
