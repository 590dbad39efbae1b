-- ===== src/Invariant/Definitions.antt =====
-- The writes of definitions and schedules leave the tables of executions as they are, so they keep
-- both invariants; and so does a message to the broker.
use flowscale.Prelude.Predicates.{there, All-map}
use flowscale.Prelude.{
  ℕ, suc, ◌≡◌, refl, ◌∙◌, inl, inr, Bool-cases, Option, List, [], ◌∷◌, String, arith,
}
use flowscale.Models.{Activity, Workflow, Schedule, ScheduleStatus, User}
use flowscale.Runtime.{Env, Db, Published, ActivityRow, World, Result, ok, err, M, publish, tick}
use flowscale.Runtime.Keeps.{Keeps, Keeps-tx, Keeps-bind, Keeps-time_now}
use flowscale.Repository.UserRepo.{insert_user, create_user}
use flowscale.Engine.Stable.Writes.{>>=-eq-ok}
use flowscale.Repository.WorkflowRepo.{
  create_workflow, update_workflow, insert_workflow, insert_activities, insert_activity_row,
  activity_row, rename_workflow, delete_activities,
}
use flowscale.Repository.ScheduleRepo.{create_schedule, delete_schedule, update_schedule_state}
use flowscale.Invariant.Holds.{Holds}

pub record SameRuns (db db' : Db) : Type 0 where
  pub executions : db'.executions ≡ db.executions
  pub events : db'.events ≡ db.events
  pub activity_executions : db'.activity_executions ≡ db.activity_executions
  pub outbox : db'.outbox ≡ db.outbox

SameRuns-refl : (db : Db) → SameRuns db db
SameRuns-refl db = record {
  executions = refl;
  events = refl;
  activity_executions = refl;
  outbox = refl;
}

SameRuns-trans : (a b c : Db) → SameRuns a b → SameRuns b c → SameRuns a c
SameRuns-trans a b c s t = record {
  executions = t.executions ∙ s.executions;
  events = t.events ∙ s.events;
  activity_executions = t.activity_executions ∙ s.activity_executions;
  outbox = t.outbox ∙ s.outbox;
}

SameRuns-Holds : (db db' : Db) (b : List Published) → SameRuns db db' → Holds db b → Holds db' b
SameRuns-Holds db db' b s h = record {
  consistent = record {
    execution_ids = rw s.executions h.consistent.execution_ids;
    event_ids = rw s.events h.consistent.event_ids;
    activity_ids = rw s.activity_executions h.consistent.activity_ids;
    keys = rw s.activity_executions h.consistent.keys;
    outbox_ids = rw s.outbox h.consistent.outbox_ids;
    activity_known = rw (s.activity_executions, s.executions) h.consistent.activity_known;
    event_known = rw (s.events, s.executions) h.consistent.event_known;
  };
  dispatched = record { all_handed = rw (s.activity_executions, s.outbox) h.dispatched.all_handed };
}

-- A transaction that leaves the tables of executions.
tx-same :
    (env : Env) (body : ℕ → Db → Result Db)
    → ((now : ℕ) (db db' : Db) → body now db ≡ ok db' → SameRuns db db')
    → Keeps Holds (flowscale.Runtime.tx env body)
tx-same env body k =
    Keeps-tx env body λ now db db' b e h. SameRuns-Holds db db' b (k now db db' e) h

insert_workflow-same :
    (now : ℕ) (id name : String) (db db' : Db)
    → insert_workflow now id name db ≡ ok db'
    → SameRuns db db'
unfolding insert_workflow
insert_workflow-same now id name db db' h = ground arith

insert_activity_row-same :
    (row : ActivityRow) (db db' : Db) → insert_activity_row row db ≡ ok db' → SameRuns db db'
unfolding insert_activity_row
insert_activity_row-same row db db' h = ground arith

insert_activities-same :
    (id : String) (i : ℕ) (acts : List Activity) (db db' : Db)
    → insert_activities id i acts db ≡ ok db'
    → SameRuns db db'
unfolding insert_activities
insert_activities-same id i [] db db' h = ground arith
insert_activities-same id i (act ∷ acts) db db' h =
    let (db₁, p, q) = >>=-eq-ok (insert_activity_row (activity_row id i act) db) _ h in
    SameRuns-trans db db₁ db' (insert_activity_row-same _ db db₁ p)
      (insert_activities-same id (suc i) acts db₁ db' q)

rename_workflow-same :
    (now : ℕ) (id name : String) (db db' : Db)
    → rename_workflow now id name db ≡ ok db'
    → SameRuns db db'
unfolding rename_workflow
rename_workflow-same now id name db db' h = ground arith

delete_activities-same : (id : String) (db : Db) → SameRuns db (delete_activities id db)
unfolding delete_activities
delete_activities-same id db = ground arith

insert_user-same : (user : User) (db db' : Db) → insert_user user db ≡ ok db' → SameRuns db db'
unfolding insert_user
insert_user-same user db db' h = ground arith

module _ (env : Env) where
  pub create_workflow-Keeps : (wf : Workflow) → Keeps Holds (create_workflow env wf)
  unfolding create_workflow
  create_workflow-Keeps wf = tx-same env _ λ now db db' h.
      let (db₁, p, q) = >>=-eq-ok (insert_workflow now wf.id wf.name db) _ h in
      SameRuns-trans db db₁ db' (insert_workflow-same now wf.id wf.name db db₁ p)
        (insert_activities-same wf.id 0 wf.activities db₁ db' q)

  pub update_workflow-Keeps : (wf : Workflow) → Keeps Holds (update_workflow env wf)
  unfolding update_workflow
  update_workflow-Keeps wf = tx-same env _ λ now db db' h.
      let (db₁, p, q) = >>=-eq-ok (rename_workflow now wf.id wf.name db) _ h in
      SameRuns-trans db db₁ db' (rename_workflow-same now wf.id wf.name db db₁ p) (
        SameRuns-trans db₁ _ db' (delete_activities-same wf.id db₁)
          (insert_activities-same wf.id 0 wf.activities _ db' q))

  pub create_schedule-Keeps : (s : Schedule) → Keeps Holds (create_schedule env s)
  unfolding create_schedule
  create_schedule-Keeps s = tx-same env _ λ now db db' h. ground arith

  pub delete_schedule-Keeps : (id : String) → Keeps Holds (delete_schedule env id)
  unfolding delete_schedule
  delete_schedule-Keeps id = tx-same env _ λ now db db' h. ground arith

  pub update_schedule_state-Keeps :
      (id : String) (next : Option ℕ) (s : ScheduleStatus)
      → Keeps Holds (update_schedule_state env id next s)
  unfolding update_schedule_state
  update_schedule_state-Keeps id next s = tx-same env _ λ now db db' h. ground arith

  pub create_user-Keeps : (user : User) → Keeps Holds (create_user env user)
  unfolding create_user
  create_user-Keeps user =
      Keeps-bind _ _ (Keeps-time_now env)
        λ now. tx-same env _ λ t db db' h. insert_user-same _ db db' h

  published : (db : Db) (b : List Published) (m : Published) → Holds db b → Holds db (m ∷ b)
  published db b m h = record {
    consistent = h.consistent;
    dispatched = record {
      all_handed =
          All-map _ _ db.activity_executions
            (λ r k p. elim (k p) [ inl a ↦ inl a | inr a ↦ inr (there a) ]) h.dispatched.all_handed;
    };
  }

  pub publish-Keeps : (m : Published) → Keeps Holds (publish env m)
  unfolding publish
  publish-Keeps m = record {
    at = λ w h. elim (Bool-cases (env.mq_fails w.calls)) [
      | inl refused ↦ rw refused h
      | inr taken ↦ rw taken (published w.db w.broker m h)
    ];
  }
