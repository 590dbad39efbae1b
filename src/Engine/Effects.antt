-- ===== src/Engine/Effects.antt =====
-- What a handler may change: the executions that it does not work on keep their rows, and the one
-- that it works on keeps its status or is given one of those that the handler writes.
pub mod History
use mathlib.Core.Option
use flowscale.Prelude.{
  ◌≡◌, refl, ap, ◌∙◌, ◌⊎◌, inl, inr, ◌≢◌, Bool, true, false, Option, none, some, List, String,
  eq_iff, arith, find,
}
use flowscale.Prelude.Predicates.{find-update, find-update_same}
use flowscale.Models.{ExecutionStatus}
use flowscale.Runtime.{Env, Db, Published, ExecutionRow, World}
use flowscale.Repository.Sql.{has_execution_id, update_execution, update_activity}
use flowscale.Engine.Success.{report_activity_success}
use flowscale.Engine.Failure.{report_activity_failure}
use flowscale.Engine.Manual.{retry_compensation, cancel}
use flowscale.Engine.Stable.Writes.{Stable, Permitted}
use flowscale.Engine.Stable.Success.{report_activity_success-Keeps}
use flowscale.Engine.Stable.Failure.{report_activity_failure-Keeps}
use flowscale.Engine.Stable.Manual.{cancel-Keeps, retry_compensation-Keeps}
use flowscale.Invariant.Inversion.{
  insert_event-inserted, insert_outbox-inserted, insert_next-inserted,
}

unfoldable pub execution_row : String → Db → Option ExecutionRow
execution_row id db = find (has_execution_id id) db.executions

-- The new status is the old one, or one that `may` tells; no row comes or goes.
abbrev pub Moves : (ExecutionStatus → Bool) → Option ExecutionRow → Option ExecutionRow → Type 0
Moves may none none = Unit
Moves may (some r) (some r') = (r'.status ≡ r.status) ⊎ (may r'.status ≡ true)
Moves may _ _ = ⊥

pub record Effect (eid : String) (may : ExecutionStatus → Bool) (before after : Db) : Type 0 where
  pub others : (id : String) → id ≢ eid → execution_row id after ≡ execution_row id before
  pub moves : Moves may (execution_row eid before) (execution_row eid after)

Moves-refl : (may : ExecutionStatus → Bool) (o : Option ExecutionRow) → Moves may o o
Moves-refl may none = tt
Moves-refl may (some r) = inl refl

Moves-map :
    (may : ExecutionStatus → Bool) (f : ExecutionRow → ExecutionRow) (o o' : Option ExecutionRow)
    → Permitted may f
    → Moves may o o'
    → Moves may o (Option.map f o')
Moves-map may f none none p m = tt
Moves-map may f none (some r) p m = m
Moves-map may f (some r) none p m = m
Moves-map may f (some r) (some r') p m = elim (p.new_status r') [
  | inl same ↦ rw same m
  | inr allowed ↦ inr allowed
]

module _ (eid : String) (may : ExecutionStatus → Bool) (db₀ : Db) where
  abbrev From : Db → List Published → Type 0
  From db b = Effect eid may db₀ db

  -- An update of the execution `eid`.
  From-execution :
      (f : ExecutionRow → ExecutionRow) (db : Db) (b : List Published)
      → Permitted may f
      → From db b
      → From (update_execution eid f db) b
  unfolding update_execution execution_row
  From-execution f db b p h = record {
    others = λ id ne.
        find-update (has_execution_id id) (has_execution_id eid) f db.executions
          (λ r. rw (p.same_id r) refl) (λ r e. ground (arith, eq_iff r.id id, eq_iff r.id eid, ne))
        ∙ h.others id ne;
    moves =
        rw (find-update_same (has_execution_id eid) f db.executions (λ r. rw (p.same_id r) refl))
          (Moves-map may f _ _ p h.moves);
  }

  -- What leaves the table of executions.
  From-same :
      (db db' : Db)
      → db'.executions ≡ db.executions
      → Effect eid may db₀ db
      → Effect eid may db₀ db'
  unfolding execution_row
  From-same db db' e h = record { others = λ id ne. rw e (h.others id ne); moves = rw e h.moves }

  From-Stable : Stable eid may From
  unfolding update_activity
  From-Stable = record {
    execution = From-execution;
    settle = λ id f db b s h. From-same db _ refl h;
    event = λ e db db' b i h.
        From-same db db' (ap (λ d. d.executions) (insert_event-inserted e db db' i).result) h;
    outbox = λ now msg db db' b i h.
        From-same db db' (ap (λ d. d.executions) (insert_outbox-inserted now msg db db' i).result)
          h;
    next = λ act e msg now db db' b i new ann h.
        let n = insert_next-inserted act e msg now db db' i in
        From-same db db'
          (ap (λ d. d.executions) n.outbox.result
            ∙ ap (λ d. d.executions) n.event.result
            ∙ ap (λ d. d.executions) n.activity.result)
          h;
  }

  From-start : Effect eid may db₀ db₀
  From-start = record { others = λ id ne. refl; moves = Moves-refl may _ }

abbrev pub of_success : ExecutionStatus → Bool
of_success ExecutionStatus.completed = true
of_success ExecutionStatus.compensating = true
of_success ExecutionStatus.compensated = true
of_success _ = false

abbrev pub of_failure : ExecutionStatus → Bool
of_failure ExecutionStatus.failed = true
of_failure ExecutionStatus.compensating = true
of_failure _ = false

abbrev pub of_retry : ExecutionStatus → Bool
of_retry ExecutionStatus.compensating = true
of_retry _ = false

abbrev pub of_cancel : ExecutionStatus → Bool
of_cancel ExecutionStatus.cancelled = true
of_cancel _ = false

module _ (env : Env) (eid : String) (w : World) where
  -- A report of a success completes the execution or goes on with its compensation; a report of a
  -- failure fails it or starts its compensation; the retry of a compensation goes on with it; a
  -- cancellation cancels it. None does anything else to a status, or to another execution.
  pub handlers-Effect :
      (id name : String) (non_retryable : Bool)
      → Effect eid of_success w.db (report_activity_success env id eid name w).1.db
        × Effect eid of_failure w.db (report_activity_failure env id eid name non_retryable w).1.db
        × Effect eid of_retry w.db (retry_compensation env eid w).1.db
        × Effect eid of_cancel w.db (cancel env eid w).1.db
  handlers-Effect id name non_retryable = (
    (report_activity_success-Keeps (From-Stable eid of_success w.db) env refl refl refl id name).at
        w (From-start eid of_success w.db),
    (report_activity_failure-Keeps (From-Stable eid of_failure w.db) env refl refl id name
          non_retryable).at
        w (From-start eid of_failure w.db),
    (retry_compensation-Keeps (From-Stable eid of_retry w.db) env refl).at w
        (From-start eid of_retry w.db),
    (cancel-Keeps (From-Stable eid of_cancel w.db) env refl).at w (From-start eid of_cancel w.db),
  )
