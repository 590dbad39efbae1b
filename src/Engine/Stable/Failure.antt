-- ===== src/Engine/Stable/Failure.antt =====
-- ReportActivityFailure keeps a stable property, on every path and with every failure.
use flowscale.Engine.Failure.Tiers.{backoff, retry_tier-table}
use flowscale.Queue.{retry_tiers}
use flowscale.Prelude.{
  ℕ, zero, suc, ◌+◌, ◌-◌, ◌≡◌, refl, inl, inr, any, Bool, true, Option, none, some, List, String,
  arith,
}
use flowscale.Models.{pos, ExecutionStatus, Activity, Workflow}
use flowscale.Runtime.{Env, Db, Published}
use flowscale.Runtime.Keeps.{
  Keeps, Keeps-pure, Keeps-query, Keeps-if, Keeps-bind, Keeps-or_raise, keeps_rules,
}
use flowscale.Engine.Build.{new_outbox}
use flowscale.Engine.Failure.{
  schedule_retry, retry, retry_tier, fail_workflow, compensate_or_fail, dead_letter, give_up,
  failure_body, report_activity_failure,
}
use flowscale.Engine.Stable.Actions.{new_event-Keeps, announced, with_lock-Keeps}
use flowscale.Engine.Stable.Success.{begin_compensation-Keeps}
use flowscale.Engine.Stable.Writes.{
  Stable, WorkTier, is_work_tier, fail_activity-Keeps, dead_letter_activity-Keeps,
  schedule_next_activity-Keeps, fail_execution-Keeps,
}

backoff-work : (n : ℕ) → is_work_tier (pos (backoff n)) ≡ true
unfolding any retry_tiers
backoff-work zero = refl
backoff-work (suc zero) = refl
backoff-work (suc (suc zero)) = refl
backoff-work (suc (suc (suc zero))) = refl
backoff-work (suc (suc (suc (suc n)))) = refl

-- The shift is by the attempts after the second.
retry_tier-from : (n : ℕ) → retry_tier n ≡ retry_tier ((n - 2) + 2)
unfolding retry_tier
retry_tier-from n = let e : ((n - 2) + 2) - 2 ≡ n - 2 = omega arith in rw e refl

retry_tier-WorkTier : (n : ℕ) → WorkTier (retry_tier n)
retry_tier-WorkTier n fits = rw (retry_tier-from n) (elim (retry_tier-table (n - 2)) [
  | inl (h, e, d) ↦ rw e (backoff-work (n - 2))
  | inr (inl (h, e)) ↦ absurd (cc (e, rw (retry_tier-from n) at fits))
  | inr (inr (h, e)) ↦ rw e refl
])

module _ {eid : String} {may : ExecutionStatus → Bool} {Q : Db → List Published → Type 0}
    (st : Stable eid may Q) (env : Env) where
  schedule_retry-Keeps : (name : String) (n : ℕ) → Keeps Q (schedule_retry env eid name n)
  unfolding schedule_retry
  schedule_retry-Keeps name n =
      announced env eid name n (retry_tier n) _ _ _ (retry_tier-WorkTier n)
        (schedule_next_activity-Keeps st env)

  retry-Keeps : (id name : String) (n : ℕ) → Keeps Q (retry env id eid name n)
  unfolding retry
  retry-Keeps id name n =
      Keeps-bind _ _ (new_event-Keeps env eid _ _)
        λ e. Keeps-bind _ _ (fail_activity-Keeps st env id e) λ _. schedule_retry-Keeps name (n + 1)

  fail_workflow-Keeps :
      (name : String) → may ExecutionStatus.failed ≡ true → Keeps Q (fail_workflow env eid name)
  unfolding fail_workflow
  fail_workflow-Keeps name allowed =
      Keeps-bind _ _ (new_event-Keeps env eid _ _) λ e. fail_execution-Keeps st env e allowed

  dead_letter-Keeps : (id name key : String) → Keeps Q (dead_letter env id eid name key)
  unfolding dead_letter new_outbox
  dead_letter-Keeps id name key = Keeps-bind _ _ (search keeps_rules) λ msg.
      Keeps-bind _ _ (new_event-Keeps env eid _ _) λ e. dead_letter_activity-Keeps st env id e msg

  module _ (failed : may ExecutionStatus.failed ≡ true)
      (compensating : may ExecutionStatus.compensating ≡ true) where
    compensate_or_fail-Keeps :
        (name : String) (b : Bool) (o : Option Activity)
        → Keeps Q (compensate_or_fail env eid name b o)
    unfolding compensate_or_fail
    compensate_or_fail-Keeps name b none = fail_workflow-Keeps name failed
    compensate_or_fail-Keeps name b (some comp) =
        Keeps-if b _ _ (fail_workflow-Keeps name failed)
          (begin_compensation-Keeps st env comp.name compensating)

    give_up-Keeps :
        (id name key : String) (s : ExecutionStatus) (wf : Workflow)
        → Keeps Q (give_up env id eid name key s wf)
    unfolding give_up
    give_up-Keeps id name key s wf =
        Keeps-bind _ _ (dead_letter-Keeps id name key)
          λ _. Keeps-bind _ _ (Keeps-query env _) λ acts. compensate_or_fail-Keeps name _ _

    failure_body-Keeps :
        (id name : String) (non_retryable : Bool)
        → Keeps Q (failure_body env id eid name non_retryable)
    unfolding failure_body
    failure_body-Keeps id name non_retryable = Keeps-bind _ _ (Keeps-query env _) λ act.
        Keeps-if _ _ _ (Keeps-pure tt) (
          Keeps-bind _ _ (Keeps-query env _) λ exec. Keeps-bind _ _ (Keeps-query env _) λ wf.
            Keeps-bind _ _ (Keeps-or_raise _ _) λ step.
              Keeps-if _ _ _ (retry-Keeps id name act.attempt)
                (give_up-Keeps id name act.idempotency_key exec.status wf))

    pub report_activity_failure-Keeps :
        (id name : String) (non_retryable : Bool)
        → Keeps Q (report_activity_failure env id eid name non_retryable)
    unfolding report_activity_failure
    report_activity_failure-Keeps id name non_retryable =
        with_lock-Keeps env eid _ (failure_body-Keeps id name non_retryable)
