-- ===== src/Engine/Progress/Handlers.antt =====
-- ReportActivitySuccess and ReportActivityFailure leave no execution stuck when they succeed.
use flowscale.Prelude.{
  ◌+◌, ℕ, ◌≡◌, refl, sym, ap, ◌∙◌, inl, inr, Bool, true, false, Bool-cases, Option, none, some,
  List, [], ◌∷◌, String, arith, any, find, update, if◌then◌else◌,
}
use flowscale.Prelude.Predicates.{Any-append_last}
use flowscale.Models.{
  ℤ, EventType, EventPayload, ExecutionStatus, ActivityExecution, Activity, Workflow, WorkflowEvent,
  OutboxMessage, is_completed, is_failed,
}
use flowscale.Runtime.{Env, Db, World, ExecutionRow, ok, err, Error, M, ◌>>=◌, pure, query}
use flowscale.Runtime.Keeps.{Ensures}
use flowscale.Repository.Sql.{has_execution_id, insert_event, update_execution}
use flowscale.Repository.ExecutionRepo.{
  insert_next, set_status, schedule_next_activity, start_compensating, complete_execution,
  fail_execution, compensated_execution,
}
use flowscale.Repository.ExecutionQueries.{find_activity, get_activity_execution}
use flowscale.Engine.Build.{new_activity, new_event, new_outbox, task_of}
use flowscale.Engine.Lock.{with_lock, lock_workflow, db-unlock_workflow}
use flowscale.Engine.Success.{
  Following, not_found, last, next, schedule_step, finish_execution, advance, begin_compensation,
  finish_compensation, compensate, after_success, success_body, report_activity_success,
}
use flowscale.Engine.Failure.{
  schedule_retry, retry, fail_workflow, compensate_or_fail, give_up, failure_body,
  report_activity_failure,
}
use flowscale.Engine.Stable.Writes.{IsNext}
use flowscale.Engine.Stable.Actions.{new_activity-Ensures}
use flowscale.Invariant.Inversion.{insert_event-inserted, insert_next-inserted}
use flowscale.Engine.Progress.{
  has_ended, Ends, GoesOn, Leaves, Leaves-raise, Leaves-if, Leaves-bind_Ensures, Leaves-bind,
  Leaves-count, Leaves-tx,
}

module _ (env : Env) (eid : String) where
  next-GoesOn :
      (act : ActivityExecution) (e : WorkflowEvent) (msg : OutboxMessage) (now : ℕ) (db db' : Db)
      → IsNext eid act
      → insert_next act e (some msg) now db ≡ ok db'
      → GoesOn eid db'
  next-GoesOn act e msg now db db' new h =
      let n = insert_next-inserted act e msg now db db' h in
      rw (n.outbox.result, n.event.result, n.activity.result)
        (inr (Any-append_last _ db.activity_executions _ (new.of_execution, rw new.is_new refl)))

  ended_row :
      (s : ExecutionStatus) (now : ℕ) (rows : List ExecutionRow)
      → has_ended s ≡ true
      → any (has_execution_id eid) (update (has_execution_id eid) (set_status s now) rows) ≡ true
      → Ends (find (has_execution_id eid) (update (has_execution_id eid) (set_status s now) rows))
  unfolding any find update
  ended_row s now [] e h = cc
  ended_row s now (r ∷ rows) e h = ground (arith, ended_row s now rows e)

  ended-GoesOn :
      (s : ExecutionStatus) (e : WorkflowEvent) (now : ℕ) (db db' : Db)
      → has_ended s ≡ true
      → e.execution_id ≡ eid
      → insert_event e (update_execution eid (set_status s now) db) ≡ ok db'
      → GoesOn eid db'
  unfolding update_execution
  ended-GoesOn s e now db db' end of h =
      let i = insert_event-inserted e _ db' h in
      rw i.result (
        inl (
          ended_row s now db.executions end (
            ap
              (λ id.
                any (has_execution_id id)
                  (update (has_execution_id eid) (set_status s now) db.executions))
              (sym of)
            ∙ i.known)))

  new_event-Ensures :
      (t : EventType) (p : EventPayload)
      → Ensures (λ e. e.execution_id ≡ eid) (new_event env eid t p)
  unfolding new_event ◌>>=◌
  new_event-Ensures t p = record { at = λ w a h. ground arith }

  -- A new attempt, its event and its message: `some` is the message that `new_outbox` makes.
  attempt-Leaves :
      (name : String) (n : ℕ) (t : EventType) (p : EventPayload) (tier : ℤ)
      (write : ActivityExecution → WorkflowEvent → OutboxMessage → M Unit)
      → ((act : ActivityExecution) (e : WorkflowEvent) (msg : OutboxMessage)
          → IsNext eid act
          → Leaves (GoesOn eid) (write act e msg))
      → Leaves (GoesOn eid) (
          new_activity env eid name n >>= λ act. new_event env eid t p >>= λ e.
          new_outbox env tier (task_of act) >>= λ msg. write act e msg)
  attempt-Leaves name n t p tier write k =
      Leaves-bind_Ensures (IsNext eid) _ _ (new_activity-Ensures env eid name n)
        λ act new. Leaves-bind _ _ λ e. Leaves-bind _ _ λ msg. k act e msg new

  schedule_step-Leaves : (name : String) → Leaves (GoesOn eid) (schedule_step env eid name)
  unfolding schedule_step schedule_next_activity
  schedule_step-Leaves name =
      attempt-Leaves name 1 _ _ _ _
        λ act e msg new. Leaves-tx env _ λ now db db' h. next-GoesOn act e msg now _ db' new h

  begin_compensation-Leaves :
      (name : String) → Leaves (GoesOn eid) (begin_compensation env eid name)
  unfolding begin_compensation start_compensating
  begin_compensation-Leaves name =
      attempt-Leaves name 1 _ _ _ _
        λ act e msg new. Leaves-tx env _ λ now db db' h. next-GoesOn act e msg now _ db' new h

  retry-Leaves : (id name : String) (n : ℕ) → Leaves (GoesOn eid) (retry env id eid name n)
  unfolding retry schedule_retry schedule_next_activity
  retry-Leaves id name n = Leaves-bind _ _ λ e. Leaves-bind _ _ λ u.
      attempt-Leaves name (n + 1) _ _ _ _
        λ act e msg new. Leaves-tx env _ λ now db db' h. next-GoesOn act e msg now _ db' new h

  finish_execution-Leaves : Leaves (GoesOn eid) (finish_execution env eid)
  unfolding finish_execution complete_execution
  finish_execution-Leaves = Leaves-bind_Ensures _ _ _ (new_event-Ensures _ _) λ e of.
      Leaves-count _ _ (Leaves-tx env _ λ now db db' h. ended-GoesOn _ e now db db' refl of h)

  finish_compensation-Leaves : Leaves (GoesOn eid) (finish_compensation env eid)
  unfolding finish_compensation compensated_execution
  finish_compensation-Leaves = Leaves-bind_Ensures _ _ _ (new_event-Ensures _ _) λ e of.
      Leaves-count _ _ (Leaves-tx env _ λ now db db' h. ended-GoesOn _ e now db db' refl of h)

  fail_workflow-Leaves : (name : String) → Leaves (GoesOn eid) (fail_workflow env eid name)
  unfolding fail_workflow fail_execution
  fail_workflow-Leaves name =
      Leaves-bind_Ensures _ _ _ (new_event-Ensures _ _)
        λ e of. Leaves-tx env _ λ now db db' h. ended-GoesOn _ e now db db' refl of h

  advance-Leaves : (name : String) (f : Following) → Leaves (GoesOn eid) (advance env eid name f)
  unfolding advance
  advance-Leaves name not_found = Leaves-raise _
  advance-Leaves name last = finish_execution-Leaves
  advance-Leaves name (next act) = schedule_step-Leaves act.name

  compensate-Leaves : (o : Option Activity) → Leaves (GoesOn eid) (compensate env eid o)
  unfolding compensate
  compensate-Leaves none = finish_compensation-Leaves
  compensate-Leaves (some c) = begin_compensation-Leaves c.name

  after_success-Leaves : (name : String) → Leaves (GoesOn eid) (after_success env eid name)
  unfolding after_success
  after_success-Leaves name = Leaves-bind _ _ λ exec.
      Leaves-bind _ _
        λ wf. Leaves-if _ _ _ (Leaves-bind _ _ λ acts. compensate-Leaves _) (advance-Leaves name _)

  compensate_or_fail-Leaves :
      (name : String) (b : Bool) (o : Option Activity)
      → Leaves (GoesOn eid) (compensate_or_fail env eid name b o)
  unfolding compensate_or_fail
  compensate_or_fail-Leaves name b none = fail_workflow-Leaves name
  compensate_or_fail-Leaves name b (some c) =
      Leaves-if b _ _ (fail_workflow-Leaves name) (begin_compensation-Leaves c.name)

  give_up-Leaves :
      (id name key : String) (s : ExecutionStatus) (wf : Workflow)
      → Leaves (GoesOn eid) (give_up env id eid name key s wf)
  unfolding give_up
  give_up-Leaves id name key s wf =
      Leaves-bind _ _ λ u. Leaves-bind _ _ λ acts. compensate_or_fail-Leaves name _ _

  err-ok : {A : Type 0} {e : Error} {a : A} → err e ≡ ok a → ⊥
  err-ok h = cc

  -- Under the lock the tables are the same, and the unlock leaves them.
  with_lock-Leaves :
      (m : M Unit) (w : World) (a : Unit)
      → ((w₁ : World) → w₁.db ≡ w.db → (m w₁).0 ≡ ok a → GoesOn eid (m w₁).1.db)
      → (with_lock env eid m w).0 ≡ ok a
      → GoesOn eid (with_lock env eid m w).1.db
  unfolding with_lock lock_workflow
  with_lock-Leaves m w a k = elim (Bool-cases (env.db_fails w.calls)) [
    | inl down ↦ rw down (λ h. absurd (err-ok h))
    | inr up ↦ rw (up, db-unlock_workflow) (λ h. k _ refl h)
  ]

  -- A body that goes on because the activity does not fit.
  reads-Leaves :
      (id : String) (p : ActivityExecution → Bool) (act : ActivityExecution)
      (rest : ActivityExecution → M Unit) (w w₁ : World) (a : Unit)
      → find_activity id w.db ≡ ok act
      → p act ≡ false
      → Leaves (GoesOn eid) (rest act)
      → w₁.db ≡ w.db
      → ((get_activity_execution env id >>= λ x. if p x then pure tt else rest x) w₁).0 ≡ ok a
      → GoesOn eid
          ((get_activity_execution env id >>= λ x. if p x then pure tt else rest x) w₁).1.db
  unfolding ◌>>=◌ query
  reads-Leaves id p act rest w w₁ a found unfit k same = elim (Bool-cases (env.db_fails w₁.calls)) [
    | inl down ↦ rw down (λ h. absurd (err-ok h))
    | inr up ↦ rw (up, ap (find_activity id) same ∙ found, unfit) (λ h. k.at _ a h)
  ]

  -- A report of success that returns without an error, on an activity that is not completed, leaves
  -- the execution ended, as COMPLETED, FAILED or COMPENSATED, or with a PENDING attempt.
  pub report_activity_success-GoesOn :
      (id name : String) (act : ActivityExecution) (w : World)
      → find_activity id w.db ≡ ok act
      → is_completed act.status ≡ false
      → (report_activity_success env id eid name w).0 ≡ ok tt
      → GoesOn eid (report_activity_success env id eid name w).1.db
  unfolding report_activity_success success_body
  report_activity_success-GoesOn id name act w found not_completed =
      with_lock-Leaves _ w tt (λ w₁ same.
        reads-Leaves id (λ a. is_completed a.status) act _ w w₁ tt found not_completed
          (Leaves-bind _ _ λ e. Leaves-bind _ _ λ u. after_success-Leaves name) same)

  -- A report of failure that returns without an error, on an activity that is not failed, leaves
  -- the execution ended, as COMPLETED, FAILED or COMPENSATED, or with a PENDING attempt.
  pub report_activity_failure-GoesOn :
      (id name : String) (act : ActivityExecution) (non_retryable : Bool) (w : World)
      → find_activity id w.db ≡ ok act
      → is_failed act.status ≡ false
      → (report_activity_failure env id eid name non_retryable w).0 ≡ ok tt
      → GoesOn eid (report_activity_failure env id eid name non_retryable w).1.db
  unfolding report_activity_failure failure_body
  report_activity_failure-GoesOn id name act nr w found not_failed =
      with_lock-Leaves _ w tt (λ w₁ same.
        reads-Leaves id (λ a. is_failed a.status) act _ w w₁ tt found not_failed
          (Leaves-bind _ _ λ exec. Leaves-bind _ _ λ wf. Leaves-bind _ _ λ step.
            Leaves-if _ _ _ (retry-Leaves id name act.attempt)
              (give_up-Leaves id name act.idempotency_key exec.status wf))
          same)
