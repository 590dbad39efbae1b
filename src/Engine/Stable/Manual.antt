-- ===== src/Engine/Stable/Manual.antt =====
-- What an operator asks for keeps a stable property, on every path and with every failure.
use flowscale.Prelude.{◌+◌, ◌≡◌, Bool, true, false, Option, none, some, List, String, arith}
use flowscale.Models.{pos, ExecutionStatus, ActivityExecution, Workflow}
use flowscale.Runtime.{Env, Db, Published, M}
use flowscale.Runtime.Keeps.{
  Keeps, Keeps-pure, Keeps-raise, Keeps-query, Keeps-if, Keeps-bind, Keeps-or_raise,
}
use flowscale.Engine.Manual.{
  try, or_try, retry_status, resume_activity, retry_dead_lettered_activity, resume_compensation,
  compensation_body, retry_compensation, cancel,
}
use flowscale.Engine.Stable.Actions.{new_event-Keeps, announced, with_lock-Keeps}
use flowscale.Engine.Stable.Writes.{
  Stable, start_compensating-Keeps, retry_activity-Keeps, cancel_execution-Keeps,
}

module _ {Q : Db → List Published → Type 0} where
  pub Keeps-try : {A : Type 0} (m : M A) → Keeps Q m → Keeps Q (try m)
  Keeps-try m k = record { at = λ w h. ground (arith, k.at w h) }

  pub or_try-Keeps : (o : Option Workflow) (m : M Workflow) → Keeps Q m → Keeps Q (or_try o m)
  or_try-Keeps none m k = Keeps-try m k
  or_try-Keeps (some wf) m k = Keeps-pure (some wf)

module _ {eid : String} {may : ExecutionStatus → Bool} {Q : Db → List Published → Type 0}
    (st : Stable eid may Q) (env : Env) where
  pub cancel-Keeps : may ExecutionStatus.cancelled ≡ true → Keeps Q (cancel env eid)
  unfolding cancel
  cancel-Keeps allowed =
      Keeps-bind _ _ (new_event-Keeps env eid _ _) λ e. cancel_execution-Keeps st env e allowed

  resume_compensation-Keeps :
      (comp : ActivityExecution)
      → may ExecutionStatus.compensating ≡ true
      → Keeps Q (resume_compensation env eid comp)
  unfolding resume_compensation
  resume_compensation-Keeps comp allowed =
      announced env eid comp.activity_name (comp.attempt + 1) (pos 0) _ _ _ (λ e. cc)
        λ act e msg new ann. start_compensating-Keeps st env act e msg new ann allowed

  compensation_body-Keeps :
      may ExecutionStatus.compensating ≡ true → Keeps Q (compensation_body env eid)
  unfolding compensation_body
  compensation_body-Keeps allowed = Keeps-bind _ _ (Keeps-query env _) λ exec.
      Keeps-if _ _ _ (Keeps-raise _) (
        Keeps-bind _ _ (Keeps-query env _) λ acts.
          Keeps-bind _ _ (Keeps-query env _) λ wf.
            Keeps-bind _ _ (Keeps-or_raise _ _) λ comp. resume_compensation-Keeps comp allowed)

  pub retry_compensation-Keeps :
      may ExecutionStatus.compensating ≡ true → Keeps Q (retry_compensation env eid)
  unfolding retry_compensation
  retry_compensation-Keeps allowed = with_lock-Keeps env eid _ (compensation_body-Keeps allowed)

module _ {may : ExecutionStatus → Bool} {Q : Db → List Published → Type 0}
    (st : (eid : String) → Stable eid may Q) (env : Env)
    (running : may ExecutionStatus.running ≡ true)
    (compensating : may ExecutionStatus.compensating ≡ true) where
  retry_status-may : (comp : Bool) → may (retry_status comp) ≡ true
  retry_status-may true = compensating
  retry_status-may false = running

  resume_activity-Keeps :
      (act : ActivityExecution) (comp : Bool) → Keeps Q (resume_activity env act comp)
  unfolding resume_activity
  resume_activity-Keeps act comp =
      announced env act.execution_id act.activity_name (act.attempt + 1) (pos 0) _ _ _ (λ e. cc)
        λ next e msg new ann.
          retry_activity-Keeps (st act.execution_id) env next e msg new ann (retry_status comp)
            (retry_status-may comp)

  pub retry_dead_lettered_activity-Keeps :
      (id : String) → Keeps Q (retry_dead_lettered_activity env id)
  unfolding retry_dead_lettered_activity
  retry_dead_lettered_activity-Keeps id = Keeps-bind _ _ (Keeps-query env _) λ act.
      Keeps-if _ _ _ (Keeps-raise _) (
        Keeps-bind _ _ (Keeps-query env _) λ exec. Keeps-if _ _ _ (Keeps-raise _) (
          Keeps-bind _ _ (Keeps-try _ (Keeps-query env _)) λ first.
            Keeps-bind _ _ (or_try-Keeps first _ (Keeps-query env _))
              λ wf. resume_activity-Keeps act _))
