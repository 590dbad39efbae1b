-- ===== src/Engine/Progress.antt =====
-- A report that succeeds leaves no execution stuck: it has ended, or has an attempt that is
-- PENDING.
pub mod Handlers
use mathlib.Core.Option
use flowscale.Prelude.{
  ◌+◌, ℕ, ◌≡◌, refl, sym, ap, ◌∙◌, inl, inr, ◌⊎◌, Bool, true, false, Bool-cases, Option, none, some,
  List, [], ◌∷◌, ◌++◌, String, arith, any, find, update, if◌then◌else◌, ◌==◌,
}
use flowscale.Prelude.Predicates.{Any, here, there, Any-append_last, find-update_same}
use flowscale.Models.{
  ℤ, EventType, EventPayload, ExecutionStatus, ActivityExecution, Activity, Workflow, WorkflowEvent,
  OutboxMessage, is_pending, is_completed, is_failed,
}
use flowscale.Runtime.{
  Env, Db, World, ExecutionRow, ActivityExecutionRow, Result, ok, err, Error, M, ◌>>=◌, continue,
  pure, raise, query, tx, commit, attempt_commit, tick, Metrics, count_metric, or_raise,
}
use flowscale.Runtime.Keeps.{Ensures}
use flowscale.Repository.Sql.{has_execution_id, insert_event, update_execution}
use flowscale.Repository.ExecutionRepo.{
  insert_next, set_status, schedule_next_activity, start_compensating, complete_execution,
  fail_execution, compensated_execution,
}
use flowscale.Repository.ExecutionQueries.{find_activity, get_activity_execution}
use flowscale.Engine.Build.{new_activity, new_event, new_outbox, task_of}
use flowscale.Engine.Lock.{with_lock, lock_workflow, unlock_workflow, db-unlock_workflow}
use flowscale.Engine.Success.{
  Following, not_found, last, next, schedule_step, finish_execution, advance, begin_compensation,
  finish_compensation, compensate, after_success, success_body, report_activity_success,
}
use flowscale.Engine.Failure.{
  schedule_retry, retry, fail_workflow, compensate_or_fail, give_up, failure_body,
  report_activity_failure,
}
use flowscale.Engine.Stable.Writes.{IsNext}
use flowscale.Engine.Stable.Actions.{new_activity-Ensures}
use flowscale.Invariant.Inversion.{insert_event-inserted, insert_next-inserted}

abbrev pub has_ended : ExecutionStatus → Bool
has_ended ExecutionStatus.completed = true
has_ended ExecutionStatus.failed = true
has_ended ExecutionStatus.compensated = true
has_ended _ = false

abbrev pub Ends : Option ExecutionRow → Type 0
Ends none = ⊥
Ends (some r) = has_ended r.status ≡ true

-- The execution has ended, or one of its attempts waits for a worker.
abbrev pub GoesOn : String → Db → Type 0
GoesOn eid db =
    Ends (find (has_execution_id eid) db.executions)
    ⊎ Any (λ r. (r.act.execution_id ≡ eid) × (is_pending r.act.status ≡ true))
        db.activity_executions

-- What an action that returns leaves in the tables.
pub record Leaves {A : Type 0} (P : Db → Type 0) (m : M A) : Type 0 where
  pub at : (w : World) (a : A) → (m w).0 ≡ ok a → P (m w).1.db

module _ {A : Type 0} {P : Db → Type 0} where
  pub Leaves-raise : (e : Error) → Leaves P (raise {A = A} e)
  unfolding raise
  Leaves-raise e = record { at = λ w a h. cc }

  pub Leaves-if : (b : Bool) (m n : M A) → Leaves P m → Leaves P n → Leaves P (if b then m else n)
  Leaves-if true m n km kn = km
  Leaves-if false m n km kn = kn

module _ {A B : Type 0} {P : Db → Type 0} where
  pub Leaves-bind_Ensures :
      (R : A → Type 0) (m : M A) (f : A → M B)
      → Ensures R m
      → ((a : A) → R a → Leaves P (f a))
      → Leaves P (m >>= f)
  unfolding ◌>>=◌
  Leaves-bind_Ensures R m f em k = record {
    at = λ w b h. let (r, w') = m w in go r w' b (em.at w) h;
  }
    where
      go :
          (r : Result A) (w' : World) (b : B)
          → ((a : A) → r ≡ ok a → R a)
          → (continue r f w').0 ≡ ok b
          → P (continue r f w').1.db
      go (ok a) w' b e h = (k a (e a refl)).at w' b h
      go (err x) w' b e h = cc

  pub Leaves-bind : (m : M A) (f : A → M B) → ((a : A) → Leaves P (f a)) → Leaves P (m >>= f)
  Leaves-bind m f k = Leaves-bind_Ensures (λ a. Unit) m f (record { at = λ w a h. tt }) (λ a u. k a)

module _ {P : Db → Type 0} where
  -- A counter is no table.
  pub Leaves-count :
      (m : M Unit) (f : Metrics → Metrics) → Leaves P m → Leaves P (m >>= λ _. count_metric f)
  unfolding ◌>>=◌
  Leaves-count m f k = record { at = λ w a h. let (r, w') = m w in go r w' a (k.at w) h }
    where
      go :
          (r : Result Unit) (w' : World) (a : Unit)
          → ((b : Unit) → r ≡ ok b → P w'.db)
          → (continue r (λ _. count_metric f) w').0 ≡ ok a
          → P (continue r (λ _. count_metric f) w').1.db
      go (ok b) w' a e h = e b refl
      go (err x) w' a e h = cc

  pub Leaves-tx :
      (env : Env) (body : ℕ → Db → Result Db)
      → ((now : ℕ) (db db' : Db) → body now db ≡ ok db' → P db')
      → Leaves P (tx env body)
  unfolding tx
  Leaves-tx env body k = record {
    at = λ w a h.
        go w (env.db_fails w.calls) (body (env.now w.calls) w.db) a (k (env.now w.calls) w.db) h;
  }
    where
      go :
          (w : World) (down : Bool) (r : Result Db) (a : Unit)
          → ((db' : Db) → r ≡ ok db' → P db')
          → (attempt_commit down r (tick w)).0 ≡ ok a
          → P (attempt_commit down r (tick w)).1.db
      go w true r a e h = cc
      go w false (ok db) a e h = e db refl
      go w false (err x) a e h = cc
