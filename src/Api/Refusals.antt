-- ===== src/Api/Refusals.antt =====
-- A handler of definitions or of schedules that answers with an error has changed nothing.
use flowscale.Prelude.{
  ℕ, ◌≤◌, ◌<◌, ◌==◌, ◌≡◌, refl, subst, inl, inr, Bool-cases, Option, none, some, String, Bool, true,
  false, arith, if◌then◌else◌,
}
use flowscale.Models.{Workflow, Schedule}
use flowscale.Runtime.{
  Env, Db, World, M, Error, Result, ok, err, tx, commit, attempt_commit, query, tick,
}
use flowscale.Repository.WorkflowRepo.{create_workflow, update_workflow, delete_workflow}
use flowscale.Repository.ScheduleRepo.{
  create_schedule, list_schedules, delete_schedule, update_schedule_state,
}
use flowscale.Repository.Listings.{list_workflows}
use flowscale.Api.{Request, Outside, Response, Serving, stop, reply, replying, asking, decoded}
use flowscale.Api.Access.{Untouched, untouched_refl}
use flowscale.Api.Workflows
use flowscale.Api.Workflows.{
  create_as, create_named, update_as, handle_update, workflow_handler, with_id,
}
use flowscale.Api.Schedules
use flowscale.Api.Schedules.{
  FirstRun, first_at, refused, create_at, create_stamped, handle_pause, handle_resume,
  schedule_handler,
}

-- An answer of 400 or more comes with an untouched world.
pub record Refuses (f : Serving) : Type 0 where
  pub at : (w : World) → 400 ≤ (f w).0.status → Untouched w (f w).1

-- An action that fails has changed nothing.
record Atomic {A : Type 0} (m : M A) : Type 0 where
  at : (w : World) (e : Error) → (m w).0 ≡ err e → Untouched w (m w).1

untouched_tick : (w w' : World) → Untouched (tick w) w' → Untouched w w'
untouched_tick w w' u = record {
  db = u.db;
  broker = u.broker;
  locks = u.locks;
  metrics = u.metrics;
  shipment_down = u.shipment_down;
}

Refuses-stop : (r : Response) → Refuses (stop r)
Refuses-stop r = record { at = λ w h. untouched_refl w }

Refuses-if : (b : Bool) (f g : Serving) → Refuses f → Refuses g → Refuses (if b then f else g)
Refuses-if true f g kf kg = kf
Refuses-if false f g kf kg = kg

too_low : (n : ℕ) → n < 400 → 400 ≤ n → ⊥
too_low n h k = omega (arith, h, k)

module _ {A : Type 0} where
  Refuses-asking : (q : ℕ → A) (f : A → Serving) → ((a : A) → Refuses (f a)) → Refuses (asking q f)
  unfolding asking
  Refuses-asking q f k = record { at = λ w h. untouched_tick w _ ((k (q w.calls)).at (tick w) h) }

  Refuses-decoded :
      (o : Option A) (bad : String) (f : A → Serving)
      → ((a : A) → Refuses (f a))
      → Refuses (decoded o bad f)
  Refuses-decoded none bad f k = Refuses-stop _
  Refuses-decoded (some a) bad f k = k a

  replied :
      (good : A → Response) (bad : Error → Response) (w : World) (p : Result A × World)
      → ((a : A) → (good a).status < 400)
      → ((e : Error) → p.0 ≡ err e → Untouched w p.1)
      → 400 ≤ (reply good bad p).0.status
      → Untouched w (reply good bad p).1
  replied good bad w (ok a, w') g k h = elim (too_low ((good a).status) (g a) h) [ ]
  replied good bad w (err e, w') g k h = k e refl

  Refuses-replying :
      (good : A → Response) (bad : Error → Response) (m : M A)
      → ((a : A) → (good a).status < 400)
      → Atomic m
      → Refuses (replying good bad m)
  unfolding replying
  Refuses-replying good bad m g k = record { at = λ w h. replied good bad w (m w) g (k.at w) h }

commit-Untouched :
    (w : World) (r : Result Db) (e : Error) → (commit r w).0 ≡ err e → Untouched w (commit r w).1
commit-Untouched w (ok db) e h = ground (arith, h)
commit-Untouched w (err x) e h = untouched_refl w

tx-Atomic : (env : Env) (body : ℕ → Db → Result Db) → Atomic (tx env body)
unfolding tx
tx-Atomic env body = record {
  at = λ w e h. untouched_tick w _ (elim (Bool-cases (env.db_fails w.calls)) [
    | inl d ↦ rw d (untouched_refl _)
    | inr d ↦ rw d (
        commit-Untouched (tick w) (body (env.now w.calls) w.db) e
          (subst (λ b. (attempt_commit b (body (env.now w.calls) w.db) (tick w)).0 ≡ err e) d h))
  ]);
}

query-Atomic : {A : Type 0} (env : Env) (q : Db → Result A) → Atomic (query env q)
unfolding query
query-Atomic env q = record {
  at = λ w e h. elim (Bool-cases (env.db_fails w.calls)) [
    | inl d ↦ rw d (untouched_tick w _ (untouched_refl _))
    | inr d ↦ rw d (untouched_tick w _ (untouched_refl _))
  ];
}

ruleset refusal_rules = (Refuses-stop, Refuses-if, Refuses-asking, Refuses-decoded)

module _ (env : Env) (out : Outside) where
  create_as-Refuses : (wf : Workflow) (id : String) → Refuses (create_as env out wf id)
  unfolding create_as create_workflow
  create_as-Refuses wf id = Refuses-replying _ _ _ (λ u. omega arith) (tx-Atomic env _)

  create_named-Refuses : (wf : Workflow) → Refuses (create_named env out wf)
  unfolding create_named
  create_named-Refuses wf = search (refusal_rules, create_as-Refuses) depth 8

  create-Refuses : (r : Request) → Refuses (Workflows.handle_create env out r)
  unfolding Workflows.handle_create
  create-Refuses r = search (refusal_rules, create_named-Refuses) depth 8

  updates-Refuses :
      (good : Unit → Response) (bad : Error → Response) (wf : Workflow)
      → ((u : Unit) → (good u).status < 400)
      → Refuses (replying good bad (update_workflow env wf))
  unfolding update_workflow
  updates-Refuses good bad wf g = Refuses-replying good bad _ g (tx-Atomic env _)

  update_as-Refuses : (id : String) (wf : Workflow) → Refuses (update_as env out id wf)
  unfolding update_as
  update_as-Refuses id wf =
      Refuses-if (wf.name == "") (stop _) (replying _ _ _) (Refuses-stop _)
        (updates-Refuses _ _ (with_id id wf) (λ u. omega arith))

  update-Refuses : (id : String) (r : Request) → Refuses (handle_update env out id r)
  unfolding handle_update
  update-Refuses id r = search (refusal_rules, update_as-Refuses) depth 8

  get-Refuses : (id : String) → Refuses (Workflows.handle_get env out id)
  unfolding Workflows.handle_get
  get-Refuses id = Refuses-replying _ _ _ (λ wf. omega arith) (query-Atomic env _)

  list-Refuses : (r : Request) → Refuses (Workflows.handle_list env out r)
  unfolding Workflows.handle_list list_workflows
  list-Refuses r = Refuses-replying _ _ _ (λ wfs. omega arith) (query-Atomic env _)

  delete-Refuses : (id : String) → Refuses (Workflows.handle_delete env out id)
  unfolding Workflows.handle_delete delete_workflow
  delete-Refuses id = Refuses-replying _ _ _ (λ u. omega arith) (tx-Atomic env _)

  workflow_handler-Refuses : (r : Request) → Refuses (workflow_handler env out r)
  unfolding workflow_handler
  workflow_handler-Refuses r =
      search
        (refusal_rules, create-Refuses, update-Refuses, get-Refuses, list-Refuses, delete-Refuses)
        depth 12

  create_at-Refuses : (s : Schedule) (run : FirstRun) → Refuses (create_at env out s run)
  unfolding create_schedule
  create_at-Refuses s (refused why) = Refuses-stop _
  create_at-Refuses s (first_at t) = Refuses-replying _ _ _ (λ u. omega arith) (tx-Atomic env _)

  create_stamped-Refuses : (s : Schedule) → Refuses (create_stamped env out s)
  unfolding create_stamped
  create_stamped-Refuses s = search (refusal_rules, create_at-Refuses) depth 8

  schedule_create-Refuses : (r : Request) → Refuses (Schedules.handle_create env out r)
  unfolding Schedules.handle_create
  schedule_create-Refuses r = search (refusal_rules, create_stamped-Refuses) depth 8

  schedule_list-Refuses : Refuses (Schedules.handle_list env out)
  unfolding Schedules.handle_list list_schedules
  schedule_list-Refuses = Refuses-replying _ _ _ (λ ss. omega arith) (query-Atomic env _)

  schedule_delete-Refuses : (id : String) → Refuses (Schedules.handle_delete env out id)
  unfolding Schedules.handle_delete delete_schedule
  schedule_delete-Refuses id = Refuses-replying _ _ _ (λ u. omega arith) (tx-Atomic env _)

  pause-Refuses : (id : String) → Refuses (handle_pause env out id)
  unfolding handle_pause update_schedule_state
  pause-Refuses id = Refuses-replying _ _ _ (λ u. omega arith) (tx-Atomic env _)

  resume-Refuses : (id : String) → Refuses (handle_resume env out id)
  unfolding handle_resume update_schedule_state
  resume-Refuses id = Refuses-replying _ _ _ (λ u. omega arith) (tx-Atomic env _)

  schedule_handler-Refuses : (r : Request) → Refuses (schedule_handler env out r)
  unfolding schedule_handler
  schedule_handler-Refuses r =
      search
        (
          refusal_rules, schedule_create-Refuses, schedule_list-Refuses, schedule_delete-Refuses,
          pause-Refuses, resume-Refuses,
        )
        depth 12

-- An answer with a status of 400 or more, from the handler of workflows and from the handler of
-- schedules, whatever the request, means that no table, message, lock or file has changed.
pub refused-Untouched :
    (env : Env) (out : Outside) (r r' : Request) (w w' : World)
    → 400 ≤ (workflow_handler env out r w).0.status
    → 400 ≤ (schedule_handler env out r' w').0.status
    → Untouched w (workflow_handler env out r w).1 × Untouched w' (schedule_handler env out r' w').1
refused-Untouched env out r r' w w' h k =
    ((workflow_handler-Refuses env out r).at w h, (schedule_handler-Refuses env out r').at w' k)
