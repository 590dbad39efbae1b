-- ===== src/Queue/Routing.antt =====
-- internal/queue/rabbitmq.go: where the declarations let the broker put what is published. How the
-- broker routes is RabbitMQ's: `Broker` is a parameter with what the documentation says of exchanges.
use Prim.Native.Nat.{compare, Ordering}
use Prim.Native.Char.{code}
use Prim.Native.String.{◌++◌}
use flowscale.Prelude.Predicates.{All}
use flowscale.Prelude.{
  ℕ, String, Bool, true, false, Option, none, some, List, [], ◌∷◌, ◌≡◌, refl, ap, ◌==◌, ◌&&◌, not,
  any, select, eq_iff, arith, if◌then◌else◌, inl, inr, Bool-cases,
}
use flowscale.Models.{ℤ, pos, negsuc, ActivityTaskMessage}
use flowscale.Runtime.{Published, to_workflow, to_retry, to_dlq, to_results, to_heartbeat}
use flowscale.Queue.{
  Exchange, workflow_exchange, results_exchange, dlq_exchange, retry_exchange, heartbeat_exchange,
  QueueDecl, Match, by_key, by_tier, retry_tiers, retry_queue, declare_topology, consume_activity,
  register_activity_queue,
}

-- The exchange, the routing key and the header `delay-tier` of a publication.
pub record Address : Type 0 where
  pub exchange : Exchange
  pub key : String
  pub tier : Option ℤ

abbrev to : Exchange → String → Option ℤ → Address
to e k t = record { exchange = e; key = k; tier = t }

unfoldable pub address_of : Published → Address
address_of (to_workflow name task) = to workflow_exchange name none
address_of (to_retry name tier task) = to retry_exchange name (some tier)
address_of (to_dlq name task) = to dlq_exchange name none
address_of (to_results res) = to results_exchange "result" none
address_of (to_heartbeat e a) = to heartbeat_exchange "heartbeat" none

-- A message that outlives the TTL of its queue, under "x-dead-letter-exchange": it keeps its key and
-- its headers.
unfoldable pub expired : Address → Address
expired a = record a { exchange = workflow_exchange }

-- The queues that the workers of these activities declare, with those of `declare_topology`.
unfoldable pub register_all : List String → List QueueDecl
register_all [] = declare_topology
register_all (n ∷ ns) = register_activity_queue n (register_all ns)

abbrev pub same_exchange : Exchange → Exchange → Bool
same_exchange workflow_exchange workflow_exchange = true
same_exchange results_exchange results_exchange = true
same_exchange dlq_exchange dlq_exchange = true
same_exchange retry_exchange retry_exchange = true
same_exchange heartbeat_exchange heartbeat_exchange = true
same_exchange _ _ = false

abbrev nat_eq : ℕ → ℕ → Bool
nat_eq a b = elim (compare a b) [ Ordering.eq ↦ true | _ ↦ false ]

abbrev pub same_tier : ℕ → ℕ → Bool
same_tier a b = elim (compare a b) [ Ordering.eq ↦ true | _ ↦ false ]

abbrev pub has_tier : Option ℤ → ℕ → Bool
has_tier (some (pos n)) t = same_tier n t
has_tier (some (negsuc n)) t = false
has_tier none t = false

-- A binding key without the wildcards of a topic exchange.
unfoldable pub is_plain : String → Bool
is_plain String.[] = true
is_plain (String.◌∷◌ c s) = not (nat_eq (code c) b'*') && (not (nat_eq (code c) b'#') && is_plain s)

-- Whether a publication is put in a queue by its declared binding: only the bindings of its own
-- exchange count, a topic exchange compares a plain binding key with the routing key, and the headers
-- exchange the tier with the header.
pub record Broker : Type 0 where
  pub puts : Address → QueueDecl → Bool
  pub elsewhere :
      (a : Address) (d : QueueDecl) → same_exchange a.exchange d.exchange ≡ false → puts a d ≡ false
  pub same_key :
      (a : Address) (d : QueueDecl) (n : String)
      → same_exchange a.exchange d.exchange ≡ true
      → d.binding ≡ by_key n
      → is_plain n ≡ true
      → puts a d ≡ (n == a.key)
  pub same_header :
      (a : Address) (d : QueueDecl) (t : ℕ)
      → same_exchange a.exchange d.exchange ≡ true
      → d.binding ≡ by_tier t
      → puts a d ≡ has_tier a.tier t

abbrev binding_fits : Match → Address → Bool
binding_fits (by_key n) a = n == a.key
binding_fits (by_tier t) a = has_tier a.tier t

-- What a binding without wildcards lets into its queue.
abbrev pub fits : Address → QueueDecl → Bool
fits a d = same_exchange a.exchange d.exchange && binding_fits d.binding a

abbrev PlainMatch : Match → Type 0
PlainMatch (by_key n) = is_plain n ≡ true
PlainMatch (by_tier t) = Unit

workflow-fits :
    (names : List String) (name q : String) (tier : Option ℤ)
    → any (λ d. d.queue == q) (select (fits (to workflow_exchange name tier)) (register_all names))
      ≡ (any (λ n. n == name) names && ((name ++ ".queue") == q))
unfolding register_all register_activity_queue declare_topology select any retry_queue
workflow-fits [] name q tier = refl
workflow-fits (n ∷ ns) name q tier =
    let rest = workflow-fits ns name q tier in
    elim (Bool-cases (n == name)) [
      | inl e ↦
          let same : n ≡ name = (eq_iff n name).0 e in
          ground (arith, rest, e, ap (λ (k : String). k ++ ".queue") same)
      | inr e ↦ rw e rest
    ]

retry-fits :
    (names : List String) (name : String) (tier : ℕ)
    → select (fits (to retry_exchange name (some (pos tier)))) (register_all names)
      ≡ (if any (same_tier tier) retry_tiers then retry_queue tier ∷ [] else [])
unfolding register_all register_activity_queue declare_topology select any retry_queue
retry-fits [] name tier = ground arith
retry-fits (n ∷ ns) name tier = retry-fits ns name tier

-- A tier that has its own queue.
abbrev pub is_declared : ℤ → Bool
is_declared (pos n) = any (same_tier n) retry_tiers
is_declared (negsuc n) = false

module _ (b : Broker) where
  open b use {puts, elsewhere, same_key, same_header}

  -- The declared queues that a publication is put in.
  unfoldable pub routed : List QueueDecl → Address → List QueueDecl
  routed decls a = select (puts a) decls

  -- It is put in the queue `q`.
  unfoldable pub reaches : List QueueDecl → Address → String → Bool
  reaches decls a q = any (λ d. d.queue == q) (routed decls a)

  puts-fits :
      (a : Address) (d : QueueDecl) (m : Match) → d.binding ≡ m → PlainMatch m → puts a d ≡ fits a d
  puts-fits a d m e p = elim (Bool-cases (same_exchange a.exchange d.exchange)) [
    | inl x ↦ go m e p x
    | inr x ↦ rw (elsewhere a d x, x) refl
  ]
    where
      go :
          (m : Match)
          → d.binding ≡ m
          → PlainMatch m
          → same_exchange a.exchange d.exchange ≡ true
          → puts a d ≡ fits a d
      go (by_key n) e p x = rw (same_key a d n x e p, x, e) refl
      go (by_tier t) e p x = rw (same_header a d t x e, x, e) refl

  routed-fits :
      (a : Address) (ds : List QueueDecl)
      → All (λ d. PlainMatch d.binding) ds
      → routed ds a ≡ select (fits a) ds
  unfolding routed select
  routed-fits a [] h = refl
  routed-fits a (d ∷ ds) (p, ps) = rw (puts-fits a d d.binding refl p, routed-fits a ds ps) refl

  register_all-plain :
      (names : List String)
      → All (λ n. is_plain n ≡ true) names
      → All (λ d. PlainMatch d.binding) (register_all names)
  unfolding register_all register_activity_queue declare_topology retry_queue is_plain
  register_all-plain [] h = (refl, (refl, (tt, (tt, (tt, (tt, (tt, tt)))))))
  register_all-plain (n ∷ ns) (p, ps) = (p, (p, register_all-plain ns ps))

  routed-register_all :
      (a : Address) (names : List String)
      → All (λ n. is_plain n ≡ true) names
      → routed (register_all names) a ≡ select (fits a) (register_all names)
  routed-register_all a names h = routed-fits a (register_all names) (register_all-plain names h)

  -- For each activity that a worker has registered: its task is put in the queue of that activity and
  -- in no other; a retry is put in the one queue of its tier, if there is such a tier, and in none
  -- otherwise; and what has outlived a tier's queue is put in the activity's queue. No name may hold
  -- a wildcard.
  pub published-delivered :
      (names : List String) (name q : String) (task : ActivityTaskMessage) (tier : ℕ)
      → All (λ n. is_plain n ≡ true) names
      → any (λ n. n == name) names ≡ true
      → (reaches (register_all names) (address_of (to_workflow name task)) q
          ≡ (consume_activity name == q))
        × (routed (register_all names) (address_of (to_retry name (pos tier) task))
            ≡ (if any (same_tier tier) retry_tiers then retry_queue tier ∷ [] else []))
        × (reaches (register_all names) (expired (address_of (to_retry name (pos tier) task))) q
            ≡ (consume_activity name == q))
  unfolding address_of expired reaches
  published-delivered names name q task tier h r = (
    reached none,
    rw (routed-register_all (to retry_exchange name (some (pos tier))) names h)
        (retry-fits names name tier),
    reached (some (pos tier)),
  )
    where
      reached :
          (t : Option ℤ)
          → reaches (register_all names) (to workflow_exchange name t) q
            ≡ (consume_activity name == q)
      reached t =
          rw (routed-register_all (to workflow_exchange name t) names h)
            (rw r at (workflow-fits names name q t))
