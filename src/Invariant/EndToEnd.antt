-- ===== src/Invariant/EndToEnd.antt =====
-- From the tables to the workers: the outbox, the publisher, the topology and the consumers together.
use flowscale.Prelude.Predicates.{All, Any, here, there}
use flowscale.Prelude.{
  ℕ, ◌≡◌, subst, inl, inr, ◌⊎◌, true, String, List, [], ◌∷◌, any, ◌==◌, eq_refl, ◌∙◌,
}
use flowscale.Models.{pos, negsuc, ActivityExecution, is_pending}
use flowscale.Runtime.{
  Env, World, ActivityExecutionRow, Published, to_workflow, to_retry, to_dlq, to_results,
  to_heartbeat,
}
use flowscale.Engine.Build.{task_of}
use flowscale.Queue.{consume_activity, retry_queue}
use flowscale.Queue.Routing.{
  Broker, is_plain, register_all, address_of, expired, routed, reaches, published-delivered,
}
use flowscale.System.{Reachable}
use flowscale.Invariant.Dispatched.{Waits, Carries, RowHanded}
use flowscale.Invariant.System.{Reachable-Invariant}

All-Any : {A : Type 0} (P : A → Type 0) (a : A) (xs : List A) → All P xs → Any (λ x. x ≡ a) xs → P a
All-Any P a [] h m = elim m [ ]
All-Any P a (x ∷ xs) h (here e) = subst P e h.0
All-Any P a (x ∷ xs) h (there m) = All-Any P a xs h.1 m

Any-map :
    {A : Type 0} (P R : A → Type 0) (xs : List A) → ((x : A) → P x → R x) → Any P xs → Any R xs
Any-map P R [] f m = elim m [ ]
Any-map P R (x ∷ xs) f (here p) = here (f x p)
Any-map P R (x ∷ xs) f (there m) = there (Any-map P R xs f m)

module _ (b : Broker) (names : List String) where
  -- The broker has put the task of `act` in the queue that the activity's consumer reads, or in the
  -- queue of one tier, from which it goes there alone.
  abbrev pub Placed : ActivityExecution → Published → Type 0
  Placed act (to_workflow topic task) =
      (task ≡ task_of act)
      × (reaches b (register_all names) (address_of (to_workflow topic task))
            (consume_activity act.activity_name)
          ≡ true)
  Placed act (to_retry topic tier task) =
      (task ≡ task_of act)
      × (n : ℕ) × (routed b (register_all names) (address_of (to_retry topic tier task))
          ≡ retry_queue n ∷ [])
      × (reaches b (register_all names) (expired (address_of (to_retry topic tier task)))
            (consume_activity act.activity_name)
          ≡ true)
  Placed act (to_dlq topic task) = ⊥
  Placed act (to_results r) = ⊥
  Placed act (to_heartbeat e a) = ⊥

  Carries-Placed :
      (act : ActivityExecution) (p : Published)
      → All (λ n. is_plain n ≡ true) names
      → any (λ n. n == act.activity_name) names ≡ true
      → Carries (task_of act) p
      → Placed act p
  Carries-Placed act (to_workflow topic task) plain known (e, f) =
      let q = consume_activity act.activity_name in
      let (at_once, t, u) = published-delivered b names act.activity_name q task 0 plain known in
      (f, rw e (at_once ∙ eq_refl q))
  Carries-Placed act (to_retry topic (pos n) task) plain known (e, f, d) =
      let q = consume_activity act.activity_name in
      let (s, parked, later) = published-delivered b names act.activity_name q task n plain known in
      (f, n, rw e (rw d at parked), rw e (later ∙ eq_refl q))
  Carries-Placed act (to_retry topic (negsuc n) task) plain known (e, f, d) = absurd (cc d)
  Carries-Placed act (to_dlq topic task) plain known c = c
  Carries-Placed act (to_results r) plain known c = c
  Carries-Placed act (to_heartbeat e a) plain known c = c

  -- In every reachable state each PENDING activity that a worker has registered has its task in the
  -- outbox, for the workers and with a tier that has a queue, or the task was published and the broker
  -- has put it in the queue that the activity's consumer reads, or in the one queue of a tier, from
  -- which it comes there when its time is over. No name may hold a wildcard.
  pub pending-Placed :
      (env : Env) (w : World) (r : ActivityExecutionRow)
      → Reachable env w
      → All (λ n. is_plain n ≡ true) names
      → Any (λ x. x ≡ r) w.db.activity_executions
      → is_pending r.act.status ≡ true
      → any (λ n. n == r.act.activity_name) names ≡ true
      → Any (Waits r.act) w.db.outbox ⊎ Any (Placed r.act) w.broker
  pending-Placed env w r reached plain there_ pending known =
      elim (All-Any (RowHanded w.db.outbox w.broker) r w.db.activity_executions
        (Reachable-Invariant env w reached).dispatched.all_handed there_ pending) [
          | inl waiting ↦ inl waiting
          | inr sent ↦ inr (Any-map _ _ w.broker (λ p. Carries-Placed r.act p plain known) sent)
        ]
