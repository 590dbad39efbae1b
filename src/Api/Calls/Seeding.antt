-- ===== src/Api/Calls/Seeding.antt =====
-- The seeding handler makes at most two writing calls for each of its five workflows.
use flowscale.Prelude.{
  ℕ, ◌*◌, inl, inr, Bool-cases, Option, none, some, String, List, [], ◌∷◌, any, length, ◌==◌, arith,
}
use flowscale.Models.{Workflow}
use flowscale.Runtime.{Env, World, Result, ok, err, tick}
use flowscale.System.{perform, on_create, on_schedule}
use flowscale.Repository.Listings.{list_workflows}
use flowscale.Repository.WorkflowRepo.{create_workflow}
use flowscale.Api.{Request}
use flowscale.Api.Seed.{
  add_schedule, after_create, seed_one, seed_missing, seed_found, seed_all, seed_handler,
  demo_workflows,
}
use flowscale.Api.Calls.{
  Called, Called-refl, Called-tick, Called-call, Called-trans, Called-weaken, query-Called, Within,
  within_rules,
}

module _ (env : Env) where
  add_schedule-Called :
      (id : String) (next : Option (ℕ → ℕ)) (w : World)
      → Called env 1 w (add_schedule env id next w)
  unfolding perform
  add_schedule-Called id none w = Called-tick env 1 w _ (Called-refl env 1 _)
  add_schedule-Called id (some next) w =
      Called-tick env 1 w _ (Called-tick env 1 (tick w) _ (Called-call env (on_schedule _) _))

  after_create-Called :
      (wf : Workflow) (p : Result (Unit {0}) × World) → Called env 1 p.1 (after_create env wf p)
  after_create-Called wf (err e, w) = Called-refl env 1 w
  after_create-Called wf (ok u, w) = elim (Bool-cases (wf.name == "Data-Sync-Cron")) [
    | inl e ↦ rw e (add_schedule-Called wf.id _ w)
    | inr e ↦ rw e (Called-refl env 1 w)
  ]

  seed_one-Called : (wf : Workflow) (w : World) → Called env 2 w (seed_one env wf w)
  unfolding seed_one perform
  seed_one-Called wf w =
      let wf' = record wf { id = env.uuid w.calls } in
      Called-tick env 2 w _ (
        Called-trans env 1 1 (tick w) _ _ (Called-call env (on_create wf') (tick w))
          (after_create-Called wf' (create_workflow env wf' (tick w))))

  seed_missing-Called :
      (existing wfs : List Workflow) (w : World)
      → Called env (2 * length wfs) w (seed_missing env existing wfs w)
  unfolding seed_missing
  seed_missing-Called existing [] w = Called-refl env 0 w
  seed_missing-Called existing (wf ∷ wfs) w =
      elim (Bool-cases (any (λ e. e.name == wf.name) existing)) [
        | inl e ↦
            rw e (Called-weaken env _ _ _ _ (omega arith) (seed_missing-Called existing wfs w))
        | inr e ↦ rw e (
            Called-weaken env _ _ _ _ (omega arith) (
              Called-trans env 2 (2 * length wfs) w _ _ (seed_one-Called wf w)
                (seed_missing-Called existing wfs (seed_one env wf w))))
      ]

  seed_found-Called : (p : Result (List Workflow) × World) → Called env 10 p.1 (seed_found env p).1
  unfolding demo_workflows
  seed_found-Called (err e, w) = Called-refl env 10 w
  seed_found-Called (ok existing, w) = seed_missing-Called existing demo_workflows w

  seed_all-Within : Within env 10 (seed_all env)
  unfolding seed_all list_workflows
  seed_all-Within = record {
    at = λ w. Called-trans env 0 10 w _ _ (query-Called env _ 0 w) (seed_found-Called _);
  }

  pub seed_handler-Within : (r : Request) → Within env 10 (seed_handler env r)
  unfolding seed_handler
  seed_handler-Within r = search (within_rules, seed_all-Within) depth 8
