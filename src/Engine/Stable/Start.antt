-- ===== src/Engine/Stable/Start.antt =====
-- StartWorkflow keeps a stable property that a new execution keeps.
use flowscale.Prelude.{
  ◌≡◌, sym, subst, ◌∙◌, ◌⊎◌, inl, inr, Bool, Option, none, some, List, [], ◌∷◌, String, arith,
}
use flowscale.Models.{
  pos, ExecutionStatus, Activity, ActivityExecution, WorkflowExecution, WorkflowEvent,
  OutboxMessage,
}
use flowscale.Runtime.{Env, Db, Published, ExecutionRow, ok, ◌>>=◌, pure, count_metric}
use flowscale.Runtime.Keeps.{
  Keeps, Ensures, Keeps-pure, Keeps-query, Keeps-bind, Keeps-bind_Ensures, Keeps-count_metric,
  Keeps-new_id, Keeps-time_now, Keeps-tx,
}
use flowscale.Repository.Sql.{insert_execution, insert_event, insert_activity}
use flowscale.Repository.ExecutionRepo.{create_execution, row_of}
use flowscale.Engine.Build.{new_activity, new_outbox}
use flowscale.Engine.Start.{
  start_with, start_workflow, create_first, new_execution, first_activity, first_outbox,
  inc_started,
}
use flowscale.Engine.Stable.Actions.{new_activity-Keeps, new_event_at-Keeps, new_outbox-Keeps}
use flowscale.Engine.Stable.Writes.{Stable, IsNext, Announces, >>=-eq-ok, >>=_assoc}

-- What a property must keep beside: the insertion of an execution.
pub record StableStart (Q : Db → List Published → Type 0) : Type 0 where
  pub execution :
      (row : ExecutionRow) (db db' : Db) (b : List Published)
      → insert_execution row db ≡ ok db'
      → Q db b
      → Q db' b

ok-injective : {A : Type 0} {a b : A} → ok a ≡ ok b → a ≡ b
ok-injective h = cc

pure-Ensures : {A : Type 0} (a : A) → Ensures (λ b. b ≡ a) (pure a)
unfolding pure
pure-Ensures a = record { at = λ w b e. cc }

abbrev IsFirst : String → Option ActivityExecution → Type 0
IsFirst id none = ⊥
IsFirst id (some act) = IsNext id act

abbrev IsMessage : ActivityExecution → Option OutboxMessage → Type 0
IsMessage act none = ⊥
IsMessage act (some msg) = Announces act msg

first_activity-Ensures :
    (env : Env) (id : String) (steps : List Activity)
    → Ensures (λ o. (o ≡ none) ⊎ IsFirst id o) (first_activity env id steps)
unfolding new_activity ◌>>=◌
first_activity-Ensures env id [] = record { at = λ w o h. ground arith }
first_activity-Ensures env id (step ∷ steps) = record { at = λ w o h. ground arith }

first_outbox-Ensures :
    (env : Env) (act : ActivityExecution) → Ensures (IsMessage act) (first_outbox env (some act))
unfolding new_outbox ◌>>=◌
first_outbox-Ensures env act = record { at = λ w o h. ground arith }

module _ {may : ExecutionStatus → Bool} {Q : Db → List Published → Type 0}
    (st : (eid : String) → Stable eid may Q) (ss : StableStart Q) (env : Env) where
  -- Without a first activity: the execution and the event.
  create_execution-Keeps_none :
      (exec : WorkflowExecution) (e : WorkflowEvent)
      → Keeps Q (create_execution env exec e none none)
  unfolding create_execution
  create_execution-Keeps_none exec e = record {
    at = λ w h.
        (Keeps-tx {Q = Q} env _ λ now db db' b p k.
            let (db₁, p₁, p₂) = >>=-eq-ok (insert_execution (row_of exec) db) _ p in
            let (db₂, p₃, p₄) = >>=-eq-ok (insert_event e db₁) _ p₂ in
            subst (λ d. Q d b) (ok-injective p₄)
              ((st "").event e db₁ db₂ b p₃ (ss.execution _ db db₁ b p₁ k))).at
          _ h;
  }

  -- With one: the activity, its event and its message are the inserts of a new attempt.
  create_execution-Keeps_some :
      (exec : WorkflowExecution) (e : WorkflowEvent) (act : ActivityExecution) (msg : OutboxMessage)
      → IsNext exec.id act
      → Announces act msg
      → Keeps Q (create_execution env exec e (some act) (some msg))
  unfolding create_execution
  create_execution-Keeps_some exec e act msg new ann = record {
    at = λ w h.
        (Keeps-tx {Q = Q} env _ λ now db db' b p k.
            let (db₁, p₁, p₂) = >>=-eq-ok (insert_execution (row_of exec) db) _ p in
            let (db₂, p₃, p₄) = >>=-eq-ok (insert_event e db₁) _ p₂ in
            (st exec.id).next act _ msg now db₂ db' b
              (sym (>>=_assoc (insert_activity now act db₂) _ _) ∙ p₄) new ann
              ((st "").event e db₁ db₂ b p₃ (ss.execution _ db db₁ b p₁ k))).at
          _ h;
  }

  written-Keeps :
      (exec : WorkflowExecution) (e : WorkflowEvent) (first : Option ActivityExecution)
      (msg : Option OutboxMessage)
      → Keeps Q (create_execution env exec e first msg)
      → Keeps Q (
          create_execution env exec e first msg >>= λ _.
          count_metric inc_started >>= λ _. pure exec)
  written-Keeps exec e first msg k =
      Keeps-bind _ _ k λ _. Keeps-bind _ _ (Keeps-count_metric _) λ _. Keeps-pure _

  create_first-Keeps_none : (exec : WorkflowExecution) → Keeps Q (create_first env exec none)
  unfolding create_first
  create_first-Keeps_none exec = Keeps-bind _ _ (new_event_at-Keeps env exec.id _ _ _) λ e.
      Keeps-bind_Ensures (λ o. o ≡ none) _ _ (pure-Ensures none) (Keeps-pure none)
        λ msg no_msg.
          rw no_msg (written-Keeps exec e none none (create_execution-Keeps_none exec e))

  create_first-Keeps_some :
      (exec : WorkflowExecution) (act : ActivityExecution)
      → IsNext exec.id act
      → Keeps Q (create_first env exec (some act))
  unfolding create_first
  create_first-Keeps_some exec act new = Keeps-bind _ _ (new_event_at-Keeps env exec.id _ _ _) λ e.
      Keeps-bind_Ensures (IsMessage act) _ _ (first_outbox-Ensures env act)
        (Keeps-bind _ _ (new_outbox-Keeps env (pos 0) act) λ m. Keeps-pure _)
        λ msg is_msg. finish e msg is_msg
    where
      finish :
          (e : WorkflowEvent) (msg : Option OutboxMessage)
          → IsMessage act msg
          → Keeps Q (
              create_execution env exec e (some act) msg >>= λ _.
              count_metric inc_started >>= λ _. pure exec)
      finish e none h = absurd h
      finish e (some m) ann =
          written-Keeps exec e (some act) (some m)
            (create_execution-Keeps_some exec e act m new ann)

  create_first-Keeps :
      (exec : WorkflowExecution) (first : Option ActivityExecution)
      → (first ≡ none) ⊎ IsFirst exec.id first
      → Keeps Q (create_first env exec first)
  create_first-Keeps exec none h = create_first-Keeps_none exec
  create_first-Keeps exec (some act) (inl e) = cc
  create_first-Keeps exec (some act) (inr new) = create_first-Keeps_some exec act new

  first_activity-Keeps :
      (id : String) (steps : List Activity) → Keeps Q (first_activity env id steps)
  first_activity-Keeps id [] = Keeps-pure none
  first_activity-Keeps id (step ∷ steps) =
      Keeps-bind _ _ (new_activity-Keeps env id step.name 1) λ a. Keeps-pure _

  start_with-Keeps :
      (workflow_id : String) (steps : List Activity) → Keeps Q (start_with env workflow_id steps)
  unfolding start_with
  start_with-Keeps workflow_id steps = Keeps-bind _ _ (Keeps-time_now env) λ now.
      Keeps-bind _ _ (Keeps-new_id env) λ id.
        Keeps-bind_Ensures (λ o. (o ≡ none) ⊎ IsFirst id o) _ _
          (first_activity-Ensures env id steps) (first_activity-Keeps id steps)
          λ first h. create_first-Keeps (new_execution id workflow_id now steps) first h

  pub start_workflow-Keeps : (workflow_id : String) → Keeps Q (start_workflow env workflow_id)
  unfolding start_workflow
  start_workflow-Keeps workflow_id =
      Keeps-bind _ _ (Keeps-query env _) λ wf. start_with-Keeps workflow_id wf.activities
