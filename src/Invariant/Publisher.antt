-- ===== src/Invariant/Publisher.antt =====
-- A tick of the outbox publisher keeps the tables consistent and no task is lost.
use flowscale.Prelude.Predicates.{
  All, here, there, All-map, All-delete, All-take, All-sort_by, Any-delete, Distinct-delete,
  Distinct-agree,
}
use flowscale.Prelude.{zero, suc, ◌≡◌, true, inl, inr, Bool-cases, eq_iff, List, [], ◌∷◌, String}
use flowscale.Models.{pos, negsuc, ActivityExecution, OutboxMessage, ActivityTaskMessage, ℤ}
use flowscale.Runtime.{Env, World, tick, query}
use flowscale.Repository.Sql.{has_outbox_id}
use flowscale.Repository.ExecutionQueries.{get_pending_outbox_messages}
use flowscale.Engine.Build.{task_of}
use flowscale.Engine.Stable.Writes.{is_work_tier}
use flowscale.Engine.Outbox.{publish_message, publish_all, process_outbox}
use flowscale.Engine.Outbox.Order.{sent_as, Sent, Outcome, publish_message-Outcome}
use flowscale.Invariant.Consistent.{IsConsistent}
use flowscale.Invariant.Holds.{Holds}
use flowscale.Invariant.Dispatched.{IsDispatched, Handed, Waits, Carries}

-- A row of the outbox with the id of `m` is `m`.
abbrev Agrees : OutboxMessage → List OutboxMessage → Type 0
Agrees m outbox = All (λ x. x.id ≡ m.id → x ≡ m) outbox

-- The message that announces an attempt is published to the workers with that attempt's task.
sent-Carries :
    (tier : ℤ) (topic : String) (task t : ActivityTaskMessage)
    → is_work_tier tier ≡ true
    → topic ≡ t.activity_name
    → task ≡ t
    → Carries t (sent_as tier topic task)
sent-Carries (pos zero) topic task t n e f = (e, f)
sent-Carries (pos (suc k)) topic task t n e f = (e, f, n)
sent-Carries (negsuc k) topic task t n e f = absurd (cc n)

module _ (msg : OutboxMessage) (w w' : World) (s : Sent msg w w') where
  announced-Carries :
      (act : ActivityExecution)
      → Waits act msg
      → Carries (task_of act) (sent_as msg.tier msg.topic s.task)
  announced-Carries act a =
      sent-Carries msg.tier msg.topic s.task (task_of act) a.for_worker a.to_topic
        (cc (s.of_payload, a.carries))

  Handed-sent :
      (act : ActivityExecution)
      → Agrees msg w.db.outbox
      → Handed w.db.outbox w.broker act
      → Handed w'.db.outbox w'.broker act
  Handed-sent act ag (inr published) = inr (rw s.sent (there published))
  Handed-sent act ag (inl waiting) = elim s.left [
    | inl same ↦ rw same (inl waiting)
    | inr gone ↦
        rw (gone, s.sent)
          (elim (Any-delete (Waits act) (has_outbox_id msg.id) msg w.db.outbox
            (All-map _ _ w.db.outbox (λ x k e. k ((eq_iff x.id msg.id).0 e)) ag) waiting) [
              | inl still ↦ inl still
              | inr was ↦ inr (here (announced-Carries act was))
            ])
  ]

  rows-sent : w'.db.activity_executions ≡ w.db.activity_executions
  rows-sent = elim s.left [ inl same ↦ rw same | inr gone ↦ rw gone ]

  sent-IsDispatched :
      Agrees msg w.db.outbox → IsDispatched w.db w.broker → IsDispatched w'.db w'.broker
  sent-IsDispatched ag d = record {
    all_handed =
        rw rows-sent
          (All-map _ _ w.db.activity_executions (λ r h p. Handed-sent r.act ag (h p)) d.all_handed);
  }

  sent-IsConsistent : IsConsistent w.db → IsConsistent w'.db
  sent-IsConsistent c = elim s.left [
    | inl same ↦ rw same c
    | inr gone ↦ rw gone (record {
      execution_ids = c.execution_ids;
      event_ids = c.event_ids;
      activity_ids = c.activity_ids;
      keys = c.keys;
      outbox_ids = Distinct-delete (λ m. m.id) (has_outbox_id msg.id) w.db.outbox c.outbox_ids;
      activity_known = c.activity_known;
      event_known = c.event_known;
    })
  ]

  sent-Agrees : (m : OutboxMessage) → Agrees m w.db.outbox → Agrees m w'.db.outbox
  sent-Agrees m ag = elim s.left [
    | inl same ↦ rw same ag
    | inr gone ↦
        rw gone (All-delete (λ x. x.id ≡ m.id → x ≡ m) (has_outbox_id msg.id) w.db.outbox ag)
  ]

abbrev pub Invariant : World → Type 0
Invariant w = Holds w.db w.broker

abbrev AllAgree : List OutboxMessage → World → Type 0
AllAgree msgs w = All (λ m. Agrees m w.db.outbox) msgs

Outcome-Invariant :
    (msg : OutboxMessage) (w w' : World)
    → Outcome msg w w'
    → Agrees msg w.db.outbox
    → Invariant w
    → Invariant w'
Outcome-Invariant msg w w' (inl (same, quiet)) ag v = record {
  consistent = rw same v.consistent;
  dispatched = rw (same, quiet) v.dispatched;
}
Outcome-Invariant msg w w' (inr s) ag v = record {
  consistent = sent-IsConsistent msg w w' s v.consistent;
  dispatched = sent-IsDispatched msg w w' s ag v.dispatched;
}

Outcome-Agrees :
    (msg m : OutboxMessage) (w w' : World)
    → Outcome msg w w'
    → Agrees m w.db.outbox
    → Agrees m w'.db.outbox
Outcome-Agrees msg m w w' (inl (same, quiet)) ag = rw same ag
Outcome-Agrees msg m w w' (inr s) ag = sent-Agrees msg w w' s m ag

publish_all-Invariant :
    (env : Env) (msgs : List OutboxMessage) (w : World)
    → AllAgree msgs w
    → Invariant w
    → Invariant (publish_all env msgs w)
unfolding publish_all
publish_all-Invariant env [] w ag v = v
publish_all-Invariant env (m ∷ msgs) w ag v =
    let out = publish_message-Outcome env m w in
    publish_all-Invariant env msgs (publish_message env m w)
      (All-map _ _ msgs (λ x. Outcome-Agrees m x w _ out) ag.1) (Outcome-Invariant m w _ out ag.0 v)

-- A round of the publisher, whichever of its calls fail, keeps the tables consistent, and every
-- PENDING activity has its task in the outbox or at the broker still.
pub process_outbox-Invariant :
    (env : Env) (w : World) → Invariant w → Invariant (process_outbox env w)
unfolding process_outbox get_pending_outbox_messages query
process_outbox-Invariant env w v = elim (Bool-cases (env.db_fails w.calls)) [
  | inl down ↦ rw down (record { consistent = v.consistent; dispatched = v.dispatched })
  | inr up ↦ rw up (
      publish_all-Invariant env _ (tick w)
        (All-take _ 100 _ (
          All-sort_by _ _ w.db.outbox
            (Distinct-agree (λ m. m.id) w.db.outbox v.consistent.outbox_ids)))
        (record { consistent = v.consistent; dispatched = v.dispatched }))
]
