-- ===== src/Queue/Connection.antt =====
-- internal/queue/rabbitmq.go: the requests to the broker, in their order, and the connection. A
-- request that the broker refuses ends the method with its error.
use Prim.Native.String.{◌++◌ as ◌+++◌}
use flowscale.Prelude.{
  ℕ, ◌*◌, ◌≡◌, refl, Bool, true, false, String, Option, none, some, List, [], ◌∷◌, ◌++◌, ◌==◌, take,
  drop, if◌then◌else◌,
}
use flowscale.Format.{show}
use flowscale.Queue.{
  Exchange, workflow_exchange, results_exchange, dlq_exchange, retry_exchange, heartbeat_exchange,
  QueueDecl, Match, by_key, by_tier, retry_tiers, retry_queue, declare_topology,
  register_activity_queue,
}

pub data ExchangeKind : Type 0 where
  topic headers : ExchangeKind

-- What the client asks of the broker. A queue is declared durable, with its TTL if it has one.
pub data Ask : Type 0 where
  dial open_channel : Ask
  declare_exchange : Exchange → ExchangeKind → Ask
  declare_queue : String → Option ℕ → Ask
  bind_queue : String → Exchange → Match → Ask

unfoldable pub exchange_requests : List Ask
exchange_requests =
    declare_exchange workflow_exchange topic
    ∷ declare_exchange results_exchange topic
    ∷ declare_exchange dlq_exchange topic
    ∷ declare_exchange retry_exchange headers
    ∷ declare_exchange heartbeat_exchange topic
    ∷ []

unfoldable pub tier_requests : List ℕ → List Ask
tier_requests [] = []
tier_requests (tier ∷ tiers) =
    let name = ◌+++◌ "retry." (◌+++◌ (show tier) "s.queue") in
    declare_queue name (some (tier * 1000))
    ∷ bind_queue name retry_exchange (by_tier tier)
    ∷ tier_requests tiers

unfoldable pub topology_requests : List Ask
topology_requests =
    exchange_requests
    ++ (tier_requests retry_tiers
        ++ declare_queue "activity.results.queue" none
          ∷ bind_queue "activity.results.queue" results_exchange (by_key "result")
          ∷ declare_queue "heartbeat.queue" none
          ∷ bind_queue "heartbeat.queue" heartbeat_exchange (by_key "heartbeat")
          ∷ [])

unfoldable pub activity_requests : String → List Ask
activity_requests name =
    let queue_name = ◌+++◌ name ".queue" in
    let dlq_name = ◌+++◌ "activity." (◌+++◌ name ".dlq") in
    declare_queue queue_name none
    ∷ bind_queue queue_name workflow_exchange (by_key name)
    ∷ declare_queue dlq_name none
    ∷ bind_queue dlq_name dlq_exchange (by_key name)
    ∷ []

-- The state of a client: its channel and its connection, each open or not, and what the broker has
-- done for it.
pub record RabbitMq : Type 0 where
  pub conn : Bool
  pub ch : Bool
  pub performed : List Ask

module _ (refuses : Ask → Bool) where
  -- The requests up to the first that is refused, and whether there is none.
  unfoldable pub issue : List Ask → Bool × List Ask
  issue [] = (true, [])
  issue (a ∷ rest) =
      let (all_done, performed) = issue rest in
      if refuses a then (false, []) else (all_done, a ∷ performed)

  abbrev pub after_topology : Bool × List Ask → Option RabbitMq × RabbitMq
  after_topology (false, asks) = (none, record { conn = true; ch = true; performed = asks })
  after_topology (true, asks) =
      let r : RabbitMq = record { conn = true; ch = true; performed = asks } in (some r, r)

  -- The client, if there is no error, and what is left at the broker. A connection without a channel
  -- is closed; one whose topology is refused is not.
  unfoldable pub new_rabbit_mq : Option RabbitMq × RabbitMq
  new_rabbit_mq =
      let closed : RabbitMq = record { conn = false; ch = false; performed = [] } in
      if refuses dial
      then (none, closed)
      else if refuses open_channel
      then (none, closed)
      else after_topology (issue topology_requests)

unfoldable pub close_client : RabbitMq → RabbitMq
close_client r = record r { conn = false; ch = false }

-- Ping: an error if there is no connection or it is closed.
unfoldable pub ping_client : RabbitMq → Bool
ping_client r = r.conn

-- GetQueueDepth, with what QueueInspect answers: a number of messages, or an error.
unfoldable pub get_queue_depth : (String → Option ℕ) → String → ℕ × Bool
get_queue_depth inspect name = elim (inspect name) [ none ↦ (0, false) | some n ↦ (n, true) ]

-- What bindings make of the queues declared before them.
ttl_of : String → List Ask → Option ℕ
ttl_of q [] = none
ttl_of q (declare_queue p t ∷ asks) = if p == q then t else ttl_of q asks
ttl_of q (_ ∷ asks) = ttl_of q asks

declared : List Ask → List Ask → List QueueDecl
declared all [] = []
declared all (bind_queue q e m ∷ asks) =
    record { queue = q; ttl = ttl_of q all; exchange = e; binding = m } ∷ declared all asks
declared all (_ ∷ asks) = declared all asks

-- The requests declare the queues and bindings of `declare_topology`, which has the last two first.
topology-declared :
    declare_topology
    ≡ (let asks = declared topology_requests topology_requests in drop 5 asks ++ take 5 asks)
unfolding declared ttl_of topology_requests tier_requests exchange_requests retry_tiers retry_queue
    declare_topology show
topology-declared = refl

same_branches : (b : Bool) (t : Option ℕ) → (if b then t else t) ≡ t
same_branches true t = refl
same_branches false t = refl

activity-declared :
    (name : String) (decls : List QueueDecl)
    → register_activity_queue name decls
      ≡ declared (activity_requests name) (activity_requests name) ++ decls
unfolding declared ttl_of activity_requests register_activity_queue
activity-declared name decls = simp same_branches
