-- ===== src/Engine/Stable/Actions.antt =====
-- What the handlers build before they write, and the lock: both leave the tables alone.
use flowscale.Prelude.{ℕ, ◌≡◌, sym, subst, inl, inr, Bool-cases, List, String, arith}
use flowscale.Models.{ℤ, EventType, EventPayload, ActivityExecution, WorkflowEvent, OutboxMessage}
use flowscale.Runtime.{Env, Db, Published, M, ◌>>=◌}
use flowscale.Runtime.Keeps.{Keeps, Ensures, Keeps-bind, Keeps-bind_Ensures, keeps_rules}
use flowscale.Engine.Build.{new_event, new_event_at, new_activity, new_outbox, task_of}
use flowscale.Engine.Lock.{with_lock, lock_workflow, db-unlock_workflow, broker-unlock_workflow}
use flowscale.Engine.Stable.Writes.{IsNext, Announces, WorkTier}

pub new_activity-Ensures :
    (env : Env) (eid name : String) (n : ℕ) → Ensures (IsNext eid) (new_activity env eid name n)
unfolding new_activity ◌>>=◌
new_activity-Ensures env eid name n = record { at = λ w a h. ground arith }

pub new_outbox-Ensures :
    (env : Env) (tier : ℤ) (act : ActivityExecution)
    → WorkTier tier
    → Ensures (Announces act) (new_outbox env tier (task_of act))
unfolding new_outbox ◌>>=◌
new_outbox-Ensures env tier act h = record {
  at = λ w a e.
      let same : a.tier ≡ tier = ground arith in
      record {
        carries = ground arith;
        to_topic = ground arith;
        for_worker = subst WorkTier (sym same) h;
      };
}

module _ {Q : Db → List Published → Type 0} (env : Env) where
  pub new_activity-Keeps : (eid name : String) (n : ℕ) → Keeps Q (new_activity env eid name n)
  unfolding new_activity
  new_activity-Keeps eid name n = search keeps_rules

  pub new_event-Keeps :
      (eid : String) (t : EventType) (p : EventPayload) → Keeps Q (new_event env eid t p)
  unfolding new_event
  new_event-Keeps eid t p = search keeps_rules

  pub new_event_at-Keeps :
      (eid : String) (t : EventType) (p : EventPayload) (now : ℕ)
      → Keeps Q (new_event_at env eid t p now)
  unfolding new_event_at
  new_event_at-Keeps eid t p now = search keeps_rules

  pub new_outbox-Keeps :
      (tier : ℤ) (act : ActivityExecution) → Keeps Q (new_outbox env tier (task_of act))
  unfolding new_outbox
  new_outbox-Keeps tier act = search keeps_rules

  -- A new attempt with its event and its message, and what is done with the three.
  pub announced :
      (eid name : String) (n : ℕ) (tier : ℤ) (t : EventType) (p : EventPayload)
      (write : ActivityExecution → WorkflowEvent → OutboxMessage → M Unit)
      → WorkTier tier
      → ((act : ActivityExecution) (e : WorkflowEvent) (msg : OutboxMessage)
          → IsNext eid act
          → Announces act msg
          → Keeps Q (write act e msg))
      → Keeps Q (
          new_activity env eid name n >>= λ act. new_event env eid t p >>= λ e.
          new_outbox env tier (task_of act) >>= λ msg. write act e msg)
  announced eid name n tier t p write tier_ok k =
      Keeps-bind_Ensures (IsNext eid) _ _ (new_activity-Ensures env eid name n)
        (new_activity-Keeps eid name n)
        λ act new. Keeps-bind _ _ (new_event-Keeps eid t p) λ e.
          Keeps-bind_Ensures (Announces act) _ _ (new_outbox-Ensures env tier act tier_ok)
            (new_outbox-Keeps tier act) λ msg announces. k act e msg new announces

  pub with_lock-Keeps : (eid : String) (m : M Unit) → Keeps Q m → Keeps Q (with_lock env eid m)
  unfolding with_lock lock_workflow
  with_lock-Keeps eid m k = record {
    at = λ w h. elim (Bool-cases (env.db_fails w.calls)) [
      | inl down ↦ rw down h
      | inr up ↦ rw up (rw (db-unlock_workflow, broker-unlock_workflow) (k.at _ h))
    ];
  }
