-- ===== src/Invariant/Dispatched.antt =====
-- The outbox pattern: a pending activity has its task in the outbox, or the task has been
-- published.
use flowscale.Prelude.Predicates.{
  All, Any, All-append, All-map, All-update, Any-append_left, Any-append_last,
}
use flowscale.Prelude.{ℕ, ◌≡◌, ◌⊎◌, inl, inr, Bool, true, some, List, [], ◌∷◌, ◌++◌, String}
use flowscale.Models.{
  ExecutionStatus, WorkflowEvent, ActivityExecution, ActivityTaskMessage, OutboxMessage, is_pending,
}
use flowscale.Runtime.{Db, Published, to_workflow, to_retry, ActivityExecutionRow}
use flowscale.Repository.Sql.{update_execution, update_activity, fresh_row}
use flowscale.Engine.Build.{task_of}
use flowscale.Engine.Stable.Writes.{Stable, Announces, Settles, is_work_tier}
use flowscale.Queue.Routing.{is_declared}
use flowscale.Engine.Stable.Start.{StableStart}
use flowscale.Invariant.Inversion.{
  NextInserted, insert_event-inserted, insert_outbox-inserted, insert_next-inserted,
  insert_execution-inserted,
}

-- A message in the outbox with the task of `act`, to be sent at once or over a tier that has a queue.
pub record Waits (act : ActivityExecution) (msg : OutboxMessage) : Type 0 where
  pub carries : msg.payload ≡ some (task_of act)
  pub to_topic : msg.topic ≡ act.activity_name
  pub for_worker : is_work_tier msg.tier ≡ true

-- A message that went to the activity's queue, at once or over a tier that has a queue.
abbrev pub Carries : ActivityTaskMessage → Published → Type 0
Carries task (to_workflow topic t) = (topic ≡ task.activity_name) × (t ≡ task)
Carries task (to_retry topic tier t) =
    (topic ≡ task.activity_name) × (t ≡ task) × (is_declared tier ≡ true)
Carries task _ = ⊥

abbrev pub Handed : List OutboxMessage → List Published → ActivityExecution → Type 0
Handed outbox b act = Any (Waits act) outbox ⊎ Any (Carries (task_of act)) b

abbrev pub RowHanded : List OutboxMessage → List Published → ActivityExecutionRow → Type 0
RowHanded outbox b r = is_pending r.act.status ≡ true → Handed outbox b r.act

-- Every row of `activity_executions` that is PENDING has been handed to the workers.
pub record IsDispatched (db : Db) (b : List Published) : Type 0 where
  pub all_handed : All (RowHanded db.outbox b) db.activity_executions

Handed-append :
    (outbox : List OutboxMessage) (b : List Published) (m : OutboxMessage)
    (r : ActivityExecutionRow)
    → RowHanded outbox b r
    → RowHanded (outbox ++ m ∷ []) b r
Handed-append outbox b m r h p = elim (h p) [
  | inl a ↦ inl (Any-append_left (Waits r.act) outbox (m ∷ []) a)
  | inr a ↦ inr a
]

settle_row :
    (f : ActivityExecution → ActivityExecution) (outbox : List OutboxMessage) (b : List Published)
    (r : ActivityExecutionRow)
    → Settles f
    → RowHanded outbox b (record r { act = f r.act })
settle_row f outbox b r s p = cc (s.ended r.act)

next-IsDispatched :
    (act : ActivityExecution) (e : WorkflowEvent) (msg : OutboxMessage) (now : ℕ) (db db' : Db)
    (b : List Published)
    → NextInserted act e msg now db db'
    → Announces act msg
    → IsDispatched db b
    → IsDispatched db' b
next-IsDispatched act e msg now db db' b i ann d =
    let m : OutboxMessage = record msg { created_at = now } in
    rw (i.outbox.result, i.event.result, i.activity.result)
      (record {
        all_handed =
            All-append (RowHanded (db.outbox ++ m ∷ []) b) db.activity_executions
              (fresh_row now act ∷ [])
              (All-map _ _ db.activity_executions (Handed-append db.outbox b m) d.all_handed)
              (
                λ p. inl (
                    Any-append_last (Waits act) db.outbox m (record {
                      carries = ann.carries;
                      to_topic = ann.to_topic;
                      for_worker = ann.for_worker i.outbox.in_range;
                    })),
                tt,
              );
      })

pub IsDispatched-Stable :
    (eid : String) (may : ExecutionStatus → Bool) → Stable eid may IsDispatched
unfolding update_execution update_activity
IsDispatched-Stable eid may = record {
  execution = λ f db b p d. record { all_handed = d.all_handed };
  settle = λ id f db b s d. record {
    all_handed =
        All-update (RowHanded db.outbox b) _ _ db.activity_executions
          (λ r h. settle_row f db.outbox b r s) d.all_handed;
  };
  event = λ e db db' b h d.
      rw (insert_event-inserted e db db' h).result (record { all_handed = d.all_handed });
  outbox = λ now msg db db' b h d. rw (insert_outbox-inserted now msg db db' h).result (record {
    all_handed =
        All-map _ _ db.activity_executions
          (Handed-append db.outbox b (record msg { created_at = now })) d.all_handed;
  });
  next = λ act e msg now db db' b h new ann d.
      next-IsDispatched act e msg now db db' b (insert_next-inserted act e msg now db db' h) ann d;
}

pub IsDispatched-StableStart : StableStart IsDispatched
IsDispatched-StableStart = record {
  execution = λ row db db' b h d.
      rw (insert_execution-inserted row db db' h).result (record { all_handed = d.all_handed });
}
