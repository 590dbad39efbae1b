-- ===== src/Engine/Manual/Once.antt =====
-- The idempotency key lets a dead-lettered activity be retried once: the key of the next attempt is
-- UNIQUE.
use flowscale.Prelude.{
  ℕ, ◌+◌, ◌≡◌, refl, sym, ◌∙◌, ap, inl, inr, Bool, true, Bool-cases, Option, some, String, List,
  arith, any,
}
use flowscale.Models.{ExecutionStatus, ActivityExecution, WorkflowEvent, OutboxMessage}
use flowscale.Runtime.{Env, Db, Published, World, Result, ok, err, M, ◌>>=◌, query, continue, tick}
use flowscale.Runtime.Keeps.{
  Keeps, Ensures, Keeps-raise, Keeps-query, Keeps-if, Keeps-bind, Keeps-bind_Ensures, Keeps-tx,
}
use flowscale.Format.{idempotency_key}
use flowscale.Repository.Sql.{has_key, insert_activity, update_execution}
use flowscale.Repository.ExecutionRepo.{retry_activity}
use flowscale.Repository.ExecutionQueries.{find_activity}
use flowscale.Engine.Build.{new_activity}
use flowscale.Engine.Manual.{resume_activity, retry_dead_lettered_activity}
use flowscale.Engine.Reports.{Unchanged}
use flowscale.Engine.Stable.Actions.{new_activity-Keeps, new_event-Keeps, new_outbox-Keeps}
use flowscale.Engine.Stable.Manual.{Keeps-try, or_try-Keeps}
use flowscale.Engine.Stable.Writes.{>>=-eq-ok}

-- The next attempt of this activity has been scheduled before.
unfoldable pub has_next : ActivityExecution → Db → Bool
has_next act db =
    any (has_key (idempotency_key act.execution_id act.activity_name (act.attempt + 1)))
      db.activity_executions

new_activity-key :
    (env : Env) (eid name : String) (n : ℕ)
    → Ensures (λ a. a.idempotency_key ≡ idempotency_key eid name n) (new_activity env eid name n)
unfolding new_activity ◌>>=◌
new_activity-key env eid name n = record { at = λ w a h. ground arith }

insert_activity-taken :
    (now : ℕ) (act : ActivityExecution) (db db' : Db)
    → any (has_key act.idempotency_key) db.activity_executions ≡ true
    → insert_activity now act db ≡ ok db'
    → ⊥
unfolding insert_activity
insert_activity-taken now act db db' taken h = ground arith

ok-injective : {A : Type 0} {a b : A} → ok a ≡ ok b → a ≡ b
ok-injective h = cc

module _ (env : Env) (w₀ : World) where
  abbrev Same : Db → List Published → Type 0
  Same db b = (db ≡ w₀.db) × (b ≡ w₀.broker)

  continue-Same :
      {A B : Type 0} (r : Result A) (f : A → M B) (w : World)
      → ((a : A) → r ≡ ok a → Keeps Same (f a))
      → Same w.db w.broker
      → Same (continue r f w).1.db (continue r f w).1.broker
  continue-Same (ok a) f w k h = (k a refl).at w h
  continue-Same (err e) f w k h = h

  -- What a query returns is what the tables of `w₀` say.
  Keeps-read :
      {A B : Type 0} (q : Db → Result A) (f : A → M B)
      → ((a : A) → q w₀.db ≡ ok a → Keeps Same (f a))
      → Keeps Same (query env q >>= f)
  unfolding ◌>>=◌
  Keeps-read q f k = record {
    at = λ w h. elim (Bool-cases (env.db_fails w.calls)) [
      | inl down ↦ rw down h
      | inr up ↦ rw up (continue-Same (q w.db) f (tick w) (λ a e. k a (ap q (sym h.0) ∙ e)) h)
    ];
  }

  retry_activity-taken :
      (eid : String) (s : ExecutionStatus) (next : ActivityExecution) (e : WorkflowEvent)
      (msg : Option OutboxMessage)
      → any (has_key next.idempotency_key) w₀.db.activity_executions ≡ true
      → Keeps Same (retry_activity env eid s next e msg)
  unfolding retry_activity update_execution
  retry_activity-taken eid s next e msg taken = Keeps-tx env _ λ now db db' b p h.
      let (db₁, q, r) = >>=-eq-ok (insert_activity now next _) _ p in
      absurd (insert_activity-taken now next _ db₁ (rw h.0 taken) q)

  resume_activity-taken :
      (act : ActivityExecution) (comp : Bool)
      → has_next act w₀.db ≡ true
      → Keeps Same (resume_activity env act comp)
  unfolding resume_activity has_next
  resume_activity-taken act comp taken =
      Keeps-bind_Ensures
        (λ a.
          a.idempotency_key ≡ idempotency_key act.execution_id act.activity_name (act.attempt + 1))
        _ _ (new_activity-key env act.execution_id act.activity_name (act.attempt + 1))
        (new_activity-Keeps env act.execution_id act.activity_name (act.attempt + 1))
        λ next key. Keeps-bind _ _ (new_event-Keeps env act.execution_id _ _) λ e.
          Keeps-bind _ _ (new_outbox-Keeps env _ next)
            λ msg. retry_activity-taken act.execution_id _ next e (some msg) (rw key taken)

  taken-Same :
      (id : String) (act : ActivityExecution)
      → find_activity id w₀.db ≡ ok act
      → has_next act w₀.db ≡ true
      → Keeps Same (retry_dead_lettered_activity env id)
  unfolding retry_dead_lettered_activity
  taken-Same id act found taken = Keeps-read _ _ λ a e.
      let same : a ≡ act = ok-injective (sym e ∙ found) in
      Keeps-if _ _ _ (Keeps-raise _) (
        Keeps-bind _ _ (Keeps-query env _) λ exec. Keeps-if _ _ _ (Keeps-raise _) (
          Keeps-bind _ _ (Keeps-try _ (Keeps-query env _)) λ first.
            Keeps-bind _ _ (or_try-Keeps first _ (Keeps-query env _))
              λ wf. resume_activity-taken a _ (rw same taken)))

-- A dead-lettered activity whose next attempt is there already is not retried again: no table
-- changes and no message is sent.
pub retry_dead_lettered_activity-once :
    (env : Env) (id : String) (act : ActivityExecution) (w : World)
    → find_activity id w.db ≡ ok act
    → has_next act w.db ≡ true
    → Unchanged w (retry_dead_lettered_activity env id w).1
retry_dead_lettered_activity-once env id act w found taken =
    (taken-Same env w id act found taken).at w (refl, refl)
