-- ===== src/Engine/Outbox.antt =====
-- internal/engine/outbox_publisher.go: a tick of the publisher.
pub mod Order
use flowscale.Prelude.{ℕ, zero, String, Option, none, some, List, [], ◌∷◌}
use flowscale.Models.{ℤ, pos, negsuc, ActivityTaskMessage, OutboxMessage}
use flowscale.Runtime.{Env, World, M, Result, ok, err}
use flowscale.Repository.ExecutionRepo.{delete_outbox_message}
use flowscale.Repository.ExecutionQueries.{get_pending_outbox_messages}
use flowscale.Queue.{publish_task, publish_retry_task, publish_dlq}

-- The switch on the tier: -1 is the dead letter queue, 0 the activity's queue, else a retry tier.
unfoldable pub publish_tier : Env → ℤ → String → ActivityTaskMessage → M Unit
publish_tier env (negsuc zero) topic task = publish_dlq env topic task
publish_tier env (pos zero) topic task = publish_task env topic task
publish_tier env tier topic task = publish_retry_task env topic tier task

-- A message is deleted once it is published; errors are logged and the loop goes on.
abbrev after_publish : Env → String → Result (Unit {0}) → World → World
after_publish env id (err e) w = w
after_publish env id (ok _) w = (delete_outbox_message env id w).1

abbrev pub publish_payload : Env → OutboxMessage → Option ActivityTaskMessage → World → World
publish_payload env msg none w = w
publish_payload env msg (some task) w =
    let (r, w') = publish_tier env msg.tier msg.topic task w in after_publish env msg.id r w'

unfoldable pub publish_message : Env → OutboxMessage → World → World
publish_message env msg w = publish_payload env msg msg.payload w

unfoldable pub publish_all : Env → List OutboxMessage → World → World
publish_all env [] w = w
publish_all env (msg ∷ msgs) w = publish_all env msgs (publish_message env msg w)

abbrev publish_found : Env → Result (List OutboxMessage) → World → World
publish_found env (err e) w = w
publish_found env (ok msgs) w = publish_all env msgs w

unfoldable pub process_outbox : Env → World → World
process_outbox env w = let (r, w') = get_pending_outbox_messages env 100 w in publish_found env r w'
