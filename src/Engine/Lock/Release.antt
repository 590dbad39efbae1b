-- ===== src/Engine/Lock/Release.antt =====
-- Every handler that takes the lock of an execution gives it back, on every path and with every
-- failure but one: that the unlock itself fails.
use flowscale.Prelude.{
  ℕ, ◌-◌, ◌≡◌, refl, ◌∙◌, ◌⊎◌, inl, inr, Bool, true, false, Bool-cases, Option, none, some, ◌∷◌,
  String, arith, if◌then◌else◌,
}
use flowscale.Models.{ℤ, pos, negsuc, Activity, Workflow, ExecutionStatus}
use flowscale.Runtime.{
  Env, Db, World, Metrics, Result, ok, err, Error, M, ◌>>=◌, pure, raise, or_raise, new_id,
  time_now, query, tx, count_metric, continue,
}
use flowscale.Repository.ExecutionRepo.{
  complete_activity, fail_activity, dead_letter_activity, schedule_next_activity,
  complete_execution, fail_execution, start_compensating, compensated_execution,
}
use flowscale.Engine.Build.{new_event, new_activity, new_outbox}
use flowscale.Engine.Lock.{
  lock_key, same_key, unlock_once, lock_workflow, unlock_workflow, with_lock,
}
use flowscale.Engine.Success.{
  Following, not_found, last, next, schedule_step, finish_execution, advance, begin_compensation,
  finish_compensation, compensate, after_success, success_body, report_activity_success,
}
use flowscale.Engine.Failure.{
  schedule_retry, retry, fail_workflow, compensate_or_fail, dead_letter, give_up, failure_body,
  report_activity_failure,
}
use flowscale.Engine.Manual.{resume_compensation, compensation_body, retry_compensation}

-- An action that leaves the locks.
record Quiet {A : Type 0} (m : M A) : Type 0 where
  at : (w : World) → (m w).1.locks ≡ w.locks

module _ {A : Type 0} where
  Quiet-pure : (a : A) → Quiet (pure a)
  unfolding pure
  Quiet-pure a = record { at = λ w. refl }

  Quiet-raise : (e : Error) → Quiet (raise {A = A} e)
  unfolding raise
  Quiet-raise e = record { at = λ w. refl }

  Quiet-or_raise : (o : Option A) (e : Error) → Quiet (or_raise o e)
  unfolding or_raise
  Quiet-or_raise none e = record { at = λ w. refl }
  Quiet-or_raise (some a) e = record { at = λ w. refl }

  Quiet-query : (env : Env) (q : Db → Result A) → Quiet (query env q)
  unfolding query
  Quiet-query env q = record { at = λ w. ground arith }

  Quiet-if : (b : Bool) (m n : M A) → Quiet m → Quiet n → Quiet (if b then m else n)
  Quiet-if true m n km kn = km
  Quiet-if false m n km kn = kn

Quiet-new_id : (env : Env) → Quiet (new_id env)
unfolding new_id
Quiet-new_id env = record { at = λ w. refl }

Quiet-time_now : (env : Env) → Quiet (time_now env)
unfolding time_now
Quiet-time_now env = record { at = λ w. refl }

Quiet-count_metric : (f : Metrics → Metrics) → Quiet (count_metric f)
unfolding count_metric
Quiet-count_metric f = record { at = λ w. refl }

Quiet-tx : (env : Env) (body : ℕ → Db → Result Db) → Quiet (tx env body)
unfolding tx
Quiet-tx env body = record { at = λ w. ground arith }

Quiet-bind :
    {A B : Type 0} (m : M A) (f : A → M B) → Quiet m → ((a : A) → Quiet (f a)) → Quiet (m >>= f)
unfolding ◌>>=◌
Quiet-bind {A = A} {B = B} m f km kf = record { at = λ w. let (r, w') = m w in go r w' ∙ km.at w }
  where
    go : (r : Result A) (w' : World) → (continue r f w').1.locks ≡ w'.locks
    go (ok a) w' = (kf a).at w'
    go (err e) w' = refl

ruleset quiet_rules = (
  Quiet-pure, Quiet-raise, Quiet-or_raise, Quiet-query, Quiet-if, Quiet-new_id, Quiet-time_now,
  Quiet-count_metric, Quiet-tx, Quiet-bind,
)

module _ (env : Env) (eid : String) where
  begin_compensation-Quiet : (name : String) → Quiet (begin_compensation env eid name)
  unfolding begin_compensation new_event new_activity new_outbox start_compensating
  begin_compensation-Quiet name = search quiet_rules depth 24

  finish_compensation-Quiet : Quiet (finish_compensation env eid)
  unfolding finish_compensation new_event compensated_execution
  finish_compensation-Quiet = search quiet_rules depth 24

  compensate-Quiet : (o : Option Activity) → Quiet (compensate env eid o)
  unfolding compensate
  compensate-Quiet none = finish_compensation-Quiet
  compensate-Quiet (some c) = begin_compensation-Quiet c.name

  advance-Quiet : (name : String) (f : Following) → Quiet (advance env eid name f)
  unfolding advance finish_execution schedule_step new_event new_activity new_outbox
      complete_execution schedule_next_activity
  advance-Quiet name not_found = search quiet_rules depth 24
  advance-Quiet name last = search quiet_rules depth 24
  advance-Quiet name (next act) = search quiet_rules depth 24

  success_body-Quiet : (id name : String) → Quiet (success_body env id eid name)
  unfolding success_body after_success new_event complete_activity
  success_body-Quiet id name = search (quiet_rules, compensate-Quiet, advance-Quiet) depth 24

  retry-Quiet : (id name : String) (n : ℕ) → Quiet (retry env id eid name n)
  unfolding retry schedule_retry new_event new_activity new_outbox fail_activity
      schedule_next_activity
  retry-Quiet id name n = search quiet_rules depth 24

  compensate_or_fail-Quiet :
      (name : String) (b : Bool) (o : Option Activity) → Quiet (compensate_or_fail env eid name b o)
  unfolding compensate_or_fail fail_workflow new_event fail_execution
  compensate_or_fail-Quiet name b none = search quiet_rules depth 24
  compensate_or_fail-Quiet name b (some c) = search (quiet_rules, begin_compensation-Quiet) depth 24

  give_up-Quiet :
      (id name key : String) (s : ExecutionStatus) (wf : Workflow)
      → Quiet (give_up env id eid name key s wf)
  unfolding give_up dead_letter new_event new_outbox dead_letter_activity
  give_up-Quiet id name key s wf = search (quiet_rules, compensate_or_fail-Quiet) depth 24

  failure_body-Quiet : (id name : String) (nr : Bool) → Quiet (failure_body env id eid name nr)
  unfolding failure_body
  failure_body-Quiet id name nr = search (quiet_rules, retry-Quiet, give_up-Quiet) depth 24

  compensation_body-Quiet : Quiet (compensation_body env eid)
  unfolding compensation_body resume_compensation new_event new_activity new_outbox
      start_compensating
  compensation_body-Quiet = search quiet_rules depth 24

  same_key_refl : (k : ℤ) → same_key k k ≡ true
  same_key_refl (pos n) = ground arith
  same_key_refl (negsuc n) = ground arith

  -- The locks after a handler: those before it, or the execution's lock more when the last call,
  -- the unlock, has failed.
  abbrev pub Released : World → World → Type 0
  Released w w' =
      (w'.locks ≡ w.locks)
      ⊎ ((w'.locks ≡ lock_key eid ∷ w.locks) × (env.db_fails (w'.calls - 1) ≡ true))

  unlock-Released :
      (w w' : World) → w'.locks ≡ lock_key eid ∷ w.locks → Released w (unlock_workflow env eid w')
  unfolding unlock_workflow unlock_once
  unlock-Released w w' e = elim (Bool-cases (env.db_fails w'.calls)) [
    | inl down ↦ rw down (inr (e, ground arith))
    | inr up ↦ rw (up, e, same_key_refl (lock_key eid)) (inl refl)
  ]

  with_lock-Released : (m : M Unit) (w : World) → Quiet m → Released w (with_lock env eid m w).1
  unfolding with_lock lock_workflow
  with_lock-Released m w k = elim (Bool-cases (env.db_fails w.calls)) [
    | inl down ↦ rw down (inl refl)
    | inr up ↦ rw up (unlock-Released w _ (k.at _))
  ]

  -- Each handler that works under the lock of an execution leaves the locks as it found them, on
  -- all paths and with all failures, unless its very last call, the unlock, fails.
  pub handlers-Released :
      (id name : String) (non_retryable : Bool) (w : World)
      → Released w (report_activity_success env id eid name w).1
        × Released w (report_activity_failure env id eid name non_retryable w).1
        × Released w (retry_compensation env eid w).1
  unfolding report_activity_success report_activity_failure retry_compensation
  handlers-Released id name non_retryable w = (
    with_lock-Released _ w (success_body-Quiet id name),
    with_lock-Released _ w (failure_body-Quiet id name non_retryable),
    with_lock-Released _ w compensation_body-Quiet,
  )
