-- ===== src/Engine/Stable/Writes.antt =====
-- The interface, and the methods of the repository that write: each keeps a stable property.
use flowscale.Prelude.{ℕ, zero, suc, ◌≡◌, refl, ◌⊎◌, Bool, true, false, some, List, String, arith}
use flowscale.Models.{
  ℤ, pos, negsuc, ExecutionStatus, ActivityStatus, ActivityExecution, WorkflowEvent, OutboxMessage,
  is_pending,
}
use flowscale.Runtime.{Env, Db, Published, ExecutionRow, Result, ok, err}
use flowscale.Runtime.Keeps.{Keeps, Keeps-tx}
use flowscale.Queue.Routing.{is_declared}
use flowscale.Repository.Sql.{
  fits_int32, ◌>>=◌, insert_event, insert_outbox, update_execution, update_activity,
}
use flowscale.Repository.ExecutionRepo.{
  insert_next, complete_activity, fail_activity, dead_letter_activity, retry_activity,
  schedule_next_activity, complete_execution, fail_execution, cancel_execution, start_compensating,
  compensated_execution,
}
use flowscale.Engine.Build.{task_of}

-- A new attempt: pending, for the execution `eid`.
pub record IsNext (eid : String) (act : ActivityExecution) : Type 0 where
  pub of_execution : act.execution_id ≡ eid
  pub is_new : act.status ≡ ActivityStatus.pending

-- At once, or over the queue of a declared tier.
abbrev pub is_work_tier : ℤ → Bool
is_work_tier (pos zero) = true
is_work_tier (pos (suc n)) = is_declared (pos (suc n))
is_work_tier (negsuc n) = false

-- A tier that the column holds is one of a worker's.
abbrev pub WorkTier : ℤ → Type 0
WorkTier tier = fits_int32 tier ≡ true → is_work_tier tier ≡ true

-- The message hands the task of `act` to a worker.
pub record Announces (act : ActivityExecution) (msg : OutboxMessage) : Type 0 where
  pub carries : msg.payload ≡ some (task_of act)
  pub to_topic : msg.topic ≡ act.activity_name
  pub for_worker : fits_int32 msg.tier ≡ true → is_work_tier msg.tier ≡ true

-- A report ends an attempt: it is no longer pending, and is otherwise the same attempt.
pub record Settles (f : ActivityExecution → ActivityExecution) : Type 0 where
  pub same_id : (a : ActivityExecution) → (f a).id ≡ a.id
  pub same_execution : (a : ActivityExecution) → (f a).execution_id ≡ a.execution_id
  pub same_name : (a : ActivityExecution) → (f a).activity_name ≡ a.activity_name
  pub same_attempt : (a : ActivityExecution) → (f a).attempt ≡ a.attempt
  pub same_key : (a : ActivityExecution) → (f a).idempotency_key ≡ a.idempotency_key
  pub ended : (a : ActivityExecution) → is_pending (f a).status ≡ false

-- An update of an execution that leaves its status or writes one that `may` tells.
pub record Permitted (may : ExecutionStatus → Bool) (f : ExecutionRow → ExecutionRow) : Type 0 where
  pub same_id : (row : ExecutionRow) → (f row).id ≡ row.id
  pub same_workflow : (row : ExecutionRow) → (f row).workflow_id ≡ row.workflow_id
  pub new_status :
      (row : ExecutionRow) → ((f row).status ≡ row.status) ⊎ (may (f row).status ≡ true)

pub record Stable (eid : String) (may : ExecutionStatus → Bool) (Q : Db → List Published → Type 0)
    : Type 0 where
  pub execution :
      (f : ExecutionRow → ExecutionRow) (db : Db) (b : List Published)
      → Permitted may f
      → Q db b
      → Q (update_execution eid f db) b
  pub settle :
      (id : String) (f : ActivityExecution → ActivityExecution) (db : Db) (b : List Published)
      → Settles f
      → Q db b
      → Q (update_activity id f db) b
  pub event :
      (e : WorkflowEvent) (db db' : Db) (b : List Published)
      → insert_event e db ≡ ok db'
      → Q db b
      → Q db' b
  pub outbox :
      (now : ℕ) (msg : OutboxMessage) (db db' : Db) (b : List Published)
      → insert_outbox now msg db ≡ ok db'
      → Q db b
      → Q db' b
  pub next :
      (act : ActivityExecution) (e : WorkflowEvent) (msg : OutboxMessage) (now : ℕ) (db db' : Db)
      (b : List Published)
      → insert_next act e (some msg) now db ≡ ok db'
      → IsNext eid act
      → Announces act msg
      → Q db b
      → Q db' b

-- Inversion of a successful chain.
pub >>=-eq-ok :
    {A B : Type 0} (r : Result A) (f : A → Result B) {b : B}
    → (r >>= f) ≡ ok b
    → (a : A) × (r ≡ ok a) × (f a ≡ ok b)
>>=-eq-ok (ok a) f h = (a, refl, h)
>>=-eq-ok (err e) f h = cc

pub >>=_assoc :
    {A B C : Type 0} (r : Result A) (f : A → Result B) (g : B → Result C)
    → ((r >>= f) >>= g) ≡ (r >>= λ a. f a >>= g)
>>=_assoc (ok a) f g = refl
>>=_assoc (err e) f g = refl

module _ {eid : String} {may : ExecutionStatus → Bool} {Q : Db → List Published → Type 0}
    (st : Stable eid may Q) (env : Env) where
  pub complete_activity-Keeps :
      (id : String) (e : WorkflowEvent) → Keeps Q (complete_activity env id e)
  unfolding complete_activity
  complete_activity-Keeps id e =
      Keeps-tx env _ λ now db db' b p h. st.event e _ db' b p (st.settle id _ db b (ground arith) h)

  pub fail_activity-Keeps : (id : String) (e : WorkflowEvent) → Keeps Q (fail_activity env id e)
  unfolding fail_activity
  fail_activity-Keeps id e =
      Keeps-tx env _ λ now db db' b p h. st.event e _ db' b p (st.settle id _ db b (ground arith) h)

  pub dead_letter_activity-Keeps :
      (id : String) (e : WorkflowEvent) (msg : OutboxMessage)
      → Keeps Q (dead_letter_activity env id e (some msg))
  unfolding dead_letter_activity
  dead_letter_activity-Keeps id e msg = Keeps-tx env _ λ now db db' b p h.
      let (db₁, p₁, p₂) = >>=-eq-ok (insert_event e _) _ p in
      st.outbox now msg db₁ db' b p₂ (st.event e _ db₁ b p₁ (st.settle id _ db b (ground arith) h))

  module _ (act : ActivityExecution) (e : WorkflowEvent) (msg : OutboxMessage)
      (new : IsNext eid act) (announces : Announces act msg) where
    pub schedule_next_activity-Keeps : Keeps Q (schedule_next_activity env eid act e (some msg))
    unfolding schedule_next_activity
    schedule_next_activity-Keeps = Keeps-tx env _ λ now db db' b p h.
        st.next act e msg now _ db' b p new announces (st.execution _ db b (ground arith) h)

    pub start_compensating-Keeps :
        may ExecutionStatus.compensating ≡ true
        → Keeps Q (start_compensating env eid act e (some msg))
    unfolding start_compensating
    start_compensating-Keeps allowed = Keeps-tx env _ λ now db db' b p h.
        st.next act e msg now _ db' b p new announces (st.execution _ db b (ground arith) h)

    pub retry_activity-Keeps :
        (s : ExecutionStatus) → may s ≡ true → Keeps Q (retry_activity env eid s act e (some msg))
    unfolding retry_activity
    retry_activity-Keeps s allowed = Keeps-tx env _ λ now db db' b p h.
        st.next act e msg now _ db' b p new announces (st.execution _ db b (ground arith) h)

  pub complete_execution-Keeps :
      (e : WorkflowEvent)
      → may ExecutionStatus.completed ≡ true
      → Keeps Q (complete_execution env eid e)
  unfolding complete_execution
  complete_execution-Keeps e allowed =
      Keeps-tx env _ λ now db db' b p h. st.event e _ db' b p (st.execution _ db b (ground arith) h)

  pub fail_execution-Keeps :
      (e : WorkflowEvent) → may ExecutionStatus.failed ≡ true → Keeps Q (fail_execution env eid e)
  unfolding fail_execution
  fail_execution-Keeps e allowed =
      Keeps-tx env _ λ now db db' b p h. st.event e _ db' b p (st.execution _ db b (ground arith) h)

  pub compensated_execution-Keeps :
      (e : WorkflowEvent)
      → may ExecutionStatus.compensated ≡ true
      → Keeps Q (compensated_execution env eid e)
  unfolding compensated_execution
  compensated_execution-Keeps e allowed =
      Keeps-tx env _ λ now db db' b p h. st.event e _ db' b p (st.execution _ db b (ground arith) h)

  pub cancel_execution-Keeps :
      (e : WorkflowEvent)
      → may ExecutionStatus.cancelled ≡ true
      → Keeps Q (cancel_execution env eid e)
  unfolding cancel_execution
  cancel_execution-Keeps e allowed =
      Keeps-tx env _ λ now db db' b p h. st.event e _ db' b p (st.execution _ db b (ground arith) h)
