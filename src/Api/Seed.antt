-- ===== src/Api/Seed.antt =====
-- internal/api/seed_handler.go: five workflows to show the engine with.
use flowscale.Prelude.{ℕ, String, List, [], ◌∷◌, Option, none, some, any, ◌==◌, if◌then◌else◌}
use flowscale.Models.{pos, RetryPolicy, Activity, Workflow, Schedule, recurring, active}
use flowscale.Runtime.{Env, World, Result, ok, err, tick}
use flowscale.Repository.WorkflowRepo.{create_workflow}
use flowscale.Repository.ScheduleRepo.{create_schedule}
use flowscale.Repository.Listings.{list_workflows}
use flowscale.Api.{Request, text, error, Response, respond, not_found, Serving, stop}

abbrev step : String → Activity
step name = record { name = name; compensation = ""; retry_policy = none; timeout = "5m" }

abbrev compensated_by : String → String → Activity
compensated_by name comp = record (step name) { compensation = comp }

-- The coefficient 1.5 is written in tenths.
abbrev retried : String → RetryPolicy → Activity
retried name p = record (step name) { retry_policy = some p }

abbrev demo : String → List Activity → Workflow
demo name steps = record {
  id = "";
  name = name;
  activities = steps;
  created_at = 0;
  updated_at = 0;
}

abbrev thrice : RetryPolicy
thrice = record {
  max_attempts = pos 3;
  backoff_strategy = "";
  initial_interval = "2s";
  backoff_coefficient = pos 15;
}

abbrev only_once : RetryPolicy
only_once = record {
  max_attempts = pos 1;
  backoff_strategy = "";
  initial_interval = "";
  backoff_coefficient = pos 0;
}

unfoldable pub demo_workflows : List Workflow
demo_workflows =
    demo "ECommerce-HappyPath" (step "reserve-inventory" ∷ step "charge-card" ∷ [])
    ∷ demo "ECommerce-RetryDemo" (step "reserve-inventory" ∷ retried "create-shipment" thrice ∷ [])
    ∷ demo "ECommerce-SagaDemo" (
        compensated_by "reserve-inventory" "release-inventory"
        ∷ compensated_by "charge-card" "refund-payment"
        ∷ retried "always-fail" only_once
        ∷ [])
    ∷ demo "Data-Sync-Cron" (step "extract-data" ∷ step "transform-data" ∷ step "load-data" ∷ [])
    ∷ demo "Heavy-Batch-Demo" (
        step "process-chunk-1"
        ∷ step "process-chunk-2"
        ∷ step "process-chunk-3"
        ∷ step "process-chunk-4"
        ∷ step "process-chunk-5"
        ∷ [])
    ∷ []

module _ (env : Env) where
  -- A run every minute, from the next one; `now` is read before the id is drawn.
  abbrev every_minute : String → String → ℕ → ℕ → Schedule
  every_minute id workflow_id now next = record {
    id = id;
    workflow_id = workflow_id;
    schedule_type = recurring;
    run_at = none;
    cron_expression = "* * * * *";
    interval = "";
    next_run_at = next;
    status = active;
    created_at = now;
    updated_at = now;
  }

  -- The error of the parser is ignored: robfig/cron takes the expression. Without it the call of
  -- Next on nil ends the request.
  abbrev pub add_schedule : String → Option (ℕ → ℕ) → World → World
  add_schedule workflow_id none w = tick w
  add_schedule workflow_id (some next) w =
      let now = env.now w.calls in
      let w' = tick w in
      (create_schedule env (every_minute (env.uuid w'.calls) workflow_id now (next now))
        (tick w')).1

  abbrev pub after_create : Workflow → Result (Unit {0}) × World → World
  after_create wf (err e, w) = w
  after_create wf (ok u, w) =
      if wf.name == "Data-Sync-Cron" then add_schedule wf.id (env.next_cron "* * * * *") w else w

  unfoldable pub seed_one : Workflow → World → World
  seed_one wf w =
      let wf' = record wf { id = env.uuid w.calls } in
      after_create wf' (create_workflow env wf' (tick w))

  -- The workflows whose names are not among the existing ones.
  unfoldable pub seed_missing : List Workflow → List Workflow → World → World
  seed_missing existing [] w = w
  seed_missing existing (wf ∷ wfs) w =
      let here = seed_missing existing wfs w in
      let later = seed_missing existing wfs (seed_one wf w) in
      if any (λ e. e.name == wf.name) existing then here else later

  abbrev pub seed_found : Result (List Workflow) × World → Response × World
  seed_found (err e, w) = (respond 500 (error e), w)
  seed_found (ok existing, w) =
      (respond 201 (text "seeded"), seed_missing existing demo_workflows w)

  unfoldable pub seed_all : Serving
  seed_all w = seed_found (list_workflows env (pos 1000) (pos 0) w)

  unfoldable pub seed_handler : Request → Serving
  seed_handler r = if r.method == "POST" then seed_all else stop not_found
