-- ===== src/Engine/Reports.antt =====
-- Reports that come a second time, where the broker, the worker or the reaper repeats them.
use flowscale.Prelude.{
  ◌≡◌, refl, inl, inr, Bool, true, false, Bool-cases, some, String, if◌then◌else◌,
}
use flowscale.Models.{
  ActivityExecution, ActivityResultMessage, ActivityStatus, is_completed, is_failed,
}
use flowscale.Runtime.{Env, World, ok, M, ◌>>=◌, pure}
use flowscale.Repository.ExecutionQueries.{find_activity, get_activity_execution}
use flowscale.Engine.Consumers.{report, consume_result}
use flowscale.Engine.Lock.{with_lock, lock_workflow, db-unlock_workflow, broker-unlock_workflow}
use flowscale.Engine.Success.{success_body, report_activity_success}
use flowscale.Engine.Failure.{failure_body, report_activity_failure}

-- Neither the tables nor the messages have changed.
abbrev pub Unchanged : World → World → Type 0
Unchanged w w' = (w'.db ≡ w.db) × (w'.broker ≡ w.broker)

with_lock-Unchanged :
    (env : Env) (eid : String) (m : M Unit) (w : World)
    → ((w₁ : World) → Unchanged w w₁ → Unchanged w (m w₁).1)
    → Unchanged w (with_lock env eid m w).1
unfolding with_lock lock_workflow
with_lock-Unchanged env eid m w k = elim (Bool-cases (env.db_fails w.calls)) [
  | inl down ↦ rw down (refl, refl)
  | inr up ↦ rw up (rw (db-unlock_workflow, broker-unlock_workflow) (k _ (refl, refl)))
]

-- An action that begins by reading an activity, and ends if the activity fits.
stops :
    (env : Env) (id : String) (p : ActivityExecution → Bool) (act : ActivityExecution)
    (m : ActivityExecution → M Unit) (w w₁ : World)
    → find_activity id w.db ≡ ok act
    → p act ≡ true
    → Unchanged w w₁
    → Unchanged w ((get_activity_execution env id >>= λ a. if p a then pure tt else m a) w₁).1
unfolding ◌>>=◌
stops env id p act m w w₁ h c u = elim (Bool-cases (env.db_fails w₁.calls)) [
  | inl down ↦ rw down u
  | inr up ↦ rw (up, u.0, h, c) (refl, u.1)
]

-- The activity is already in the status to which such a report would bring it.
abbrev pub already : Bool → ActivityStatus → Bool
already true status = is_completed status
already false status = is_failed status

report-Unchanged :
    (env : Env) (id eid name : String) (success non_retryable : Bool) (w : World)
    (act : ActivityExecution)
    → find_activity id w.db ≡ ok act
    → already success act.status ≡ true
    → Unchanged w
        ((if success
            then report_activity_success env id eid name
            else report_activity_failure env id eid name non_retryable)
          w).1
unfolding report_activity_success report_activity_failure success_body failure_body
report-Unchanged env id eid name true nr w act h c =
    with_lock-Unchanged env eid _ w
      (λ w₁ u. stops env id (λ a. is_completed a.status) act _ w w₁ h c u)
report-Unchanged env id eid name false nr w act h c =
    with_lock-Unchanged env eid _ w
      (λ w₁ u. stops env id (λ a. is_failed a.status) act _ w w₁ h c u)

-- A result that reports success of an activity that is COMPLETED, or failure of one that is FAILED,
-- changes no table and sends no message, whichever database calls fail.
pub consume_result-repeated :
    (env : Env) (res : ActivityResultMessage) (w : World) (act : ActivityExecution)
    → find_activity res.activity_id w.db ≡ ok act
    → already res.success act.status ≡ true
    → Unchanged w (consume_result env (some res) w).1
unfolding consume_result report
consume_result-repeated env res w act h c =
    report-Unchanged env res.activity_id res.execution_id res.activity_name res.success
      res.non_retryable w act h c
