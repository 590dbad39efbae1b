-- ===== src/Engine/Outbox/Order.antt =====
-- What one round of the publisher's loop can do: a message is deleted only after the broker took
-- it.
use flowscale.Prelude.{
  zero, suc, ◌≡◌, refl, ◌⊎◌, inl, inr, Bool-cases, Option, none, some, ◌∷◌, String, arith, delete,
}
use flowscale.Models.{ℤ, pos, negsuc, ActivityTaskMessage, OutboxMessage}
use flowscale.Runtime.{Env, Published, to_workflow, to_retry, to_dlq, World, publish, tx}
use flowscale.Repository.Sql.{has_outbox_id}
use flowscale.Repository.ExecutionRepo.{delete_outbox_message}
use flowscale.Engine.Outbox.{publish_tier, publish_message, publish_payload}

-- The exchange that a tier stands for.
abbrev pub sent_as : ℤ → String → ActivityTaskMessage → Published
sent_as (negsuc zero) topic task = to_dlq topic task
sent_as (pos zero) topic task = to_workflow topic task
sent_as (pos (suc n)) topic task = to_retry topic (pos (suc n)) task
sent_as (negsuc (suc n)) topic task = to_retry topic (negsuc (suc n)) task

publish_tier-eq :
    (env : Env) (tier : ℤ) (topic : String) (task : ActivityTaskMessage)
    → publish_tier env tier topic task ≡ publish env (sent_as tier topic task)
unfolding publish_tier
publish_tier-eq env (negsuc zero) topic task = refl
publish_tier-eq env (pos zero) topic task = refl
publish_tier-eq env (pos (suc n)) topic task = refl
publish_tier-eq env (negsuc (suc n)) topic task = refl

-- The message was sent, and then it is still in the outbox or has been deleted.
pub record Sent (msg : OutboxMessage) (w w' : World) : Type 0 where
  pub task : ActivityTaskMessage
  pub of_payload : msg.payload ≡ some task
  pub sent : w'.broker ≡ sent_as msg.tier msg.topic task ∷ w.broker
  pub left :
      (w'.db ≡ w.db) ⊎ (w'.db ≡ record w.db { outbox = delete (has_outbox_id msg.id) w.db.outbox })

abbrev pub Outcome : OutboxMessage → World → World → Type 0
Outcome msg w w' = ((w'.db ≡ w.db) × (w'.broker ≡ w.broker)) ⊎ Sent msg w w'

left-delete :
    (env : Env) (id : String) (w : World)
    → ((delete_outbox_message env id w).1.db ≡ w.db)
      ⊎ ((delete_outbox_message env id w).1.db
          ≡ record w.db { outbox = delete (has_outbox_id id) w.db.outbox })
unfolding delete_outbox_message tx
left-delete env id w = ground arith

broker-delete :
    (env : Env) (id : String) (w : World) → (delete_outbox_message env id w).1.broker ≡ w.broker
unfolding delete_outbox_message tx
broker-delete env id w = ground arith

-- The publisher either leaves the tables and the broker as they were, or the broker has the
-- message's task, under the exchange of its tier; only then may the row have left the outbox.
pub publish_message-Outcome :
    (env : Env) (msg : OutboxMessage) (w : World) → Outcome msg w (publish_message env msg w)
unfolding publish_message publish
publish_message-Outcome env msg w = go msg.payload refl
  where
    go :
        (o : Option ActivityTaskMessage)
        → msg.payload ≡ o
        → Outcome msg w (publish_payload env msg o w)
    go none e = inl (refl, refl)
    go (some task) e =
        rw (publish_tier-eq env msg.tier msg.topic task) (elim (Bool-cases (env.mq_fails w.calls)) [
          | inl refused ↦ rw refused (inl (refl, refl))
          | inr taken ↦ rw taken (
              inr (record {
                task = task;
                of_payload = e;
                sent = broker-delete env msg.id _;
                left = left-delete env msg.id _;
              }))
        ])
