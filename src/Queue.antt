-- ===== src/Queue.antt =====
-- internal/queue/rabbitmq.go: what is declared on the broker, and what is published to it. How the
-- broker routes a message is its own matter.
pub mod Connection
pub mod Routing
use Prim.Native.String.{◌++◌}
use flowscale.Prelude.{ℕ, ◌*◌, String, List, [], ◌∷◌, Option, none, some}
use flowscale.Models.{ℤ, ActivityTaskMessage, ActivityResultMessage}
use flowscale.Runtime.{Env, M, publish, to_workflow, to_retry, to_dlq, to_results, to_heartbeat}
use flowscale.Format.{show}

pub data Exchange : Type 0 where
  workflow_exchange results_exchange dlq_exchange retry_exchange heartbeat_exchange : Exchange

-- A queue is bound by a routing key, or by the header `delay-tier`.
pub data Match : Type 0 where
  by_key : String → Match
  by_tier : ℕ → Match

-- A queue with its message TTL in ms, if it has one, and its binding. Messages that outlive the
-- TTL go back to the workflow exchange.
pub record QueueDecl : Type 0 where
  pub queue : String
  pub ttl : Option ℕ
  pub exchange : Exchange
  pub binding : Match

unfoldable pub retry_tiers : List ℕ
retry_tiers = 1 ∷ 2 ∷ 4 ∷ 8 ∷ 16 ∷ []

unfoldable pub retry_queue : ℕ → QueueDecl
retry_queue tier = record {
  queue = "retry." ++ show tier ++ "s.queue";
  ttl = some (tier * 1000);
  exchange = retry_exchange;
  binding = by_tier tier;
}

retry_queues : List ℕ → List QueueDecl
retry_queues [] = []
retry_queues (tier ∷ tiers) = retry_queue tier ∷ retry_queues tiers

plain_queue : String → Exchange → String → QueueDecl
plain_queue name exchange key = record {
  queue = name;
  ttl = none;
  exchange = exchange;
  binding = by_key key;
}

-- The two global queues stand before those of the tiers here.
unfoldable pub declare_topology : List QueueDecl
unfolding retry_tiers retry_queues plain_queue
declare_topology =
    plain_queue "activity.results.queue" results_exchange "result"
    ∷ plain_queue "heartbeat.queue" heartbeat_exchange "heartbeat"
    ∷ retry_queues retry_tiers

unfoldable pub register_activity_queue : String → List QueueDecl → List QueueDecl
unfolding plain_queue
register_activity_queue name decls =
    plain_queue (name ++ ".queue") workflow_exchange name
    ∷ plain_queue ("activity." ++ name ++ ".dlq") dlq_exchange name
    ∷ decls

abbrev pub publish_task : Env → String → ActivityTaskMessage → M Unit
publish_task env name task = publish env (to_workflow name task)

abbrev pub publish_retry_task : Env → String → ℤ → ActivityTaskMessage → M Unit
publish_retry_task env name tier task = publish env (to_retry name tier task)

abbrev pub publish_dlq : Env → String → ActivityTaskMessage → M Unit
publish_dlq env name task = publish env (to_dlq name task)

abbrev pub publish_result : Env → ActivityResultMessage → M Unit
publish_result env res = publish env (to_results res)

abbrev pub publish_heartbeat : Env → String → String → M Unit
publish_heartbeat env execution_id activity_id = publish env (to_heartbeat execution_id activity_id)

-- The queues that the consumers read: ConsumeActivity, ConsumeResults and ConsumeHeartbeats.
abbrev pub consume_activity : String → String
consume_activity name = name ++ ".queue"

abbrev pub consume_results : String
consume_results = "activity.results.queue"

abbrev pub consume_heartbeats : String
consume_heartbeats = "heartbeat.queue"
