-- ===== src/Engine/Effects/History.antt =====
-- The history of an execution is only written on: events are appended, and an attempt keeps its
-- identity and is never opened again.
use flowscale.Prelude.{
  ◌&&◌, not, arith, ◌≡◌, refl, ◌∙◌, inl, inr, Bool, true, false, Bool-cases, List, [], ◌∷◌, ◌++◌,
  String, update,
}
use flowscale.Models.{ExecutionStatus, ActivityExecution, WorkflowEvent, is_pending}
use flowscale.Runtime.{Env, Db, ActivityExecutionRow, World}
use flowscale.Repository.Sql.{update_execution, update_activity}
use flowscale.Engine.Success.{report_activity_success}
use flowscale.Engine.Failure.{report_activity_failure}
use flowscale.Engine.Manual.{retry_compensation, retry_dead_lettered_activity, cancel}
use flowscale.Engine.Stable.Writes.{Stable, Settles}
use flowscale.Engine.Stable.Success.{report_activity_success-Keeps}
use flowscale.Engine.Stable.Failure.{report_activity_failure-Keeps}
use flowscale.Engine.Stable.Manual.{
  cancel-Keeps, retry_compensation-Keeps, retry_dead_lettered_activity-Keeps,
}
use flowscale.Invariant.Inversion.{
  EventInserted, insert_event-inserted, insert_outbox-inserted, insert_next-inserted,
}

-- `ys` has the rows of `xs`, each related to the old one, and then maybe more.
abbrev pub Extends : {A : Type 0} → (A → A → Type 0) → List A → List A → Type 0
Extends R [] ys = Unit
Extends R (x ∷ xs) [] = ⊥
Extends R (x ∷ xs) (y ∷ ys) = R x y × Extends R xs ys

-- The same attempt, which has not gone back to PENDING.
pub record SameAttempt (r s : ActivityExecutionRow) : Type 0 where
  pub id : s.act.id ≡ r.act.id
  pub execution : s.act.execution_id ≡ r.act.execution_id
  pub name : s.act.activity_name ≡ r.act.activity_name
  pub attempt : s.act.attempt ≡ r.act.attempt
  pub key : s.act.idempotency_key ≡ r.act.idempotency_key
  pub still_ended : (is_pending s.act.status && not (is_pending r.act.status)) ≡ false

pub record History (before after : Db) : Type 0 where
  pub events : Extends (λ e f. f ≡ e) before.events after.events
  pub attempts : Extends SameAttempt before.activity_executions after.activity_executions

module _ {A : Type 0} (R : A → A → Type 0) where
  Extends-refl : (xs : List A) → ((x : A) → R x x) → Extends R xs xs
  Extends-refl [] r = tt
  Extends-refl (x ∷ xs) r = (r x, Extends-refl xs r)

  Extends-append : (xs ys zs : List A) → Extends R xs ys → Extends R xs (ys ++ zs)
  Extends-append [] ys zs h = tt
  Extends-append (x ∷ xs) [] zs h = absurd h
  Extends-append (x ∷ xs) (y ∷ ys) zs h = (h.0, Extends-append xs ys zs h.1)

  Extends-update :
      (p : A → Bool) (f : A → A) (xs ys : List A)
      → ((x y : A) → R x y → R x (f y))
      → Extends R xs ys
      → Extends R xs (update p f ys)
  unfolding update
  Extends-update p f [] ys k h = tt
  Extends-update p f (x ∷ xs) [] k h = absurd h
  Extends-update p f (x ∷ xs) (y ∷ ys) k h = elim (Bool-cases (p y)) [
    | inl e ↦ rw e (k x y h.0, Extends-update p f xs ys k h.1)
    | inr e ↦ rw e (h.0, Extends-update p f xs ys k h.1)
  ]

settled :
    (f : ActivityExecution → ActivityExecution) (r s : ActivityExecutionRow)
    → Settles f
    → SameAttempt r s
    → SameAttempt r (record s { act = f s.act })
settled f r s t h = record {
  id = t.same_id s.act ∙ h.id;
  execution = t.same_execution s.act ∙ h.execution;
  name = t.same_name s.act ∙ h.name;
  attempt = t.same_attempt s.act ∙ h.attempt;
  key = t.same_key s.act ∙ h.key;
  still_ended = ground (arith, t.ended s.act);
}

event-History :
    (db₀ db db' : Db) (e : WorkflowEvent)
    → EventInserted e db db'
    → History db₀ db
    → History db₀ db'
event-History db₀ db db' e i h = rw i.result (record {
  events = Extends-append _ db₀.events db.events (e ∷ []) h.events;
  attempts = h.attempts;
})

History-Stable :
    (eid : String) (may : ExecutionStatus → Bool) (db₀ : Db)
    → Stable eid may (λ db b. History db₀ db)
unfolding update_execution update_activity
History-Stable eid may db₀ = record {
  execution = λ f db b p h. record { events = h.events; attempts = h.attempts };
  settle = λ id f db b s h. record {
    events = h.events;
    attempts =
        Extends-update SameAttempt _ _ db₀.activity_executions db.activity_executions
          (λ r t k. settled f r t s k) h.attempts;
  };
  event = λ e db db' b i h. event-History db₀ db db' e (insert_event-inserted e db db' i) h;
  outbox = λ now msg db db' b i h.
      rw (insert_outbox-inserted now msg db db' i).result
        (record { events = h.events; attempts = h.attempts });
  next = λ act e msg now db db' b i new ann h.
      let n = insert_next-inserted act e msg now db db' i in
      let k : History db₀ n.db₁ = rw n.activity.result (record {
        events = h.events;
        attempts =
            Extends-append SameAttempt db₀.activity_executions db.activity_executions _ h.attempts;
      }) in
      let k' = event-History db₀ n.db₁ n.db₂ e n.event k in
      rw n.outbox.result (record { events = k'.events; attempts = k'.attempts });
}

History-refl : (db : Db) → History db db
History-refl db = record {
  events = Extends-refl _ db.events (λ e. refl);
  attempts = Extends-refl SameAttempt db.activity_executions (λ r. record {
    id = refl;
    execution = refl;
    name = refl;
    attempt = refl;
    key = refl;
    still_ended = ground arith;
  });
}

-- Every handler only appends to the events, and every attempt keeps its id, execution, name, number
-- and key; one that has ended is never PENDING again.
pub handlers-History :
    (env : Env) (id eid name : String) (non_retryable : Bool) (w : World)
    → History w.db (report_activity_success env id eid name w).1.db
      × History w.db (report_activity_failure env id eid name non_retryable w).1.db
      × History w.db (retry_compensation env eid w).1.db
      × History w.db (retry_dead_lettered_activity env id w).1.db
      × History w.db (cancel env eid w).1.db
handlers-History env id eid name non_retryable w =
    let any_status : ExecutionStatus → Bool = λ s. true in
    let st = History-Stable eid any_status w.db in
    let start = History-refl w.db in
    (
      (report_activity_success-Keeps st env refl refl refl id name).at w start,
      (report_activity_failure-Keeps st env refl refl id name non_retryable).at w start,
      (retry_compensation-Keeps st env refl).at w start,
      (retry_dead_lettered_activity-Keeps {may = any_status} (λ e. History-Stable e any_status w.db)
            env refl refl id).at
          w start,
      (cancel-Keeps st env refl).at w start,
    )
