-- ===== src/Engine/Stable/Success.antt =====
-- ReportActivitySuccess keeps a stable property, on every path and with every failure.
use flowscale.Prelude.{◌≡◌, Bool, true, Option, none, some, List, String}
use flowscale.Models.{pos, ExecutionStatus, Activity}
use flowscale.Runtime.{Env, Db, Published}
use flowscale.Runtime.Keeps.{
  Keeps, Keeps-pure, Keeps-raise, Keeps-query, Keeps-if, Keeps-bind, Keeps-count_metric,
}
use flowscale.Engine.Success
use flowscale.Engine.Success.{
  Following, schedule_step, finish_execution, advance, begin_compensation, finish_compensation,
  compensate, after_success, success_body, report_activity_success, following,
}
use flowscale.Engine.Stable.Actions.{new_event-Keeps, announced, with_lock-Keeps}
use flowscale.Engine.Stable.Writes.{
  Stable, complete_activity-Keeps, schedule_next_activity-Keeps, start_compensating-Keeps,
  complete_execution-Keeps, compensated_execution-Keeps,
}

module _ {eid : String} {may : ExecutionStatus → Bool} {Q : Db → List Published → Type 0}
    (st : Stable eid may Q) (env : Env) where
  schedule_step-Keeps : (name : String) → Keeps Q (schedule_step env eid name)
  unfolding schedule_step
  schedule_step-Keeps name =
      announced env eid name 1 (pos 0) _ _ _ (λ e. cc) (schedule_next_activity-Keeps st env)

  pub begin_compensation-Keeps :
      (name : String)
      → may ExecutionStatus.compensating ≡ true
      → Keeps Q (begin_compensation env eid name)
  unfolding begin_compensation
  begin_compensation-Keeps name allowed =
      announced env eid name 1 (pos 0) _ _ _ (λ e. cc)
        λ act e msg new ann. start_compensating-Keeps st env act e msg new ann allowed

  finish_execution-Keeps : may ExecutionStatus.completed ≡ true → Keeps Q (finish_execution env eid)
  unfolding finish_execution
  finish_execution-Keeps allowed =
      Keeps-bind _ _ (new_event-Keeps env eid _ _)
        λ e. Keeps-bind _ _ (complete_execution-Keeps st env e allowed) λ _. Keeps-count_metric _

  finish_compensation-Keeps :
      may ExecutionStatus.compensated ≡ true → Keeps Q (finish_compensation env eid)
  unfolding finish_compensation
  finish_compensation-Keeps allowed =
      Keeps-bind _ _ (new_event-Keeps env eid _ _)
        λ e. Keeps-bind _ _ (compensated_execution-Keeps st env e allowed) λ _. Keeps-count_metric _

  advance-Keeps :
      (name : String) (f : Following)
      → may ExecutionStatus.completed ≡ true
      → Keeps Q (advance env eid name f)
  unfolding advance
  advance-Keeps name Success.not_found allowed = Keeps-raise _
  advance-Keeps name Success.last allowed = finish_execution-Keeps allowed
  advance-Keeps name (Success.next act) allowed = schedule_step-Keeps act.name

  compensate-Keeps :
      (o : Option Activity)
      → may ExecutionStatus.compensating ≡ true
      → may ExecutionStatus.compensated ≡ true
      → Keeps Q (compensate env eid o)
  unfolding compensate
  compensate-Keeps none c d = finish_compensation-Keeps d
  compensate-Keeps (some a) c d = begin_compensation-Keeps a.name c

  module _ (completed : may ExecutionStatus.completed ≡ true)
      (compensating : may ExecutionStatus.compensating ≡ true)
      (compensated : may ExecutionStatus.compensated ≡ true) where
    after_success-Keeps : (name : String) → Keeps Q (after_success env eid name)
    unfolding after_success
    after_success-Keeps name = Keeps-bind _ _ (Keeps-query env _) λ exec.
        Keeps-bind _ _ (Keeps-query env _) λ wf.
          Keeps-if _ _ _
            (Keeps-bind _ _ (Keeps-query env _) λ acts. compensate-Keeps _ compensating compensated)
            (advance-Keeps name _ completed)

    success_body-Keeps : (id name : String) → Keeps Q (success_body env id eid name)
    unfolding success_body
    success_body-Keeps id name = Keeps-bind _ _ (Keeps-query env _) λ act.
        Keeps-if _ _ _ (Keeps-pure tt) (
          Keeps-bind _ _ (new_event-Keeps env eid _ _)
            λ e. Keeps-bind _ _ (complete_activity-Keeps st env id e) λ _. after_success-Keeps name)

    pub report_activity_success-Keeps :
        (id name : String) → Keeps Q (report_activity_success env id eid name)
    unfolding report_activity_success
    report_activity_success-Keeps id name = with_lock-Keeps env eid _ (success_body-Keeps id name)
