-- ===== src/Worker/Pool/Counts.antt =====
-- How many goroutines of a worker stand where: the semaphore holds the tasks that run to its limit,
-- and the WaitGroup knows all of them.
use Prim.Native.Nat.{compare, Ordering}
use flowscale.Prelude.{
  ℕ, ◌+◌, ◌≤◌, ◌≡◌, refl, Bool, String, List, [], ◌∷◌, ◌++◌, arith, inl, inr, Bool-cases,
}
use flowscale.Runtime.{Env, World}
use flowscale.Engine.Consumers.{Answer}
use flowscale.Worker.{Handler}
use flowscale.Worker.Pool.{
  Delivery, Shared, Thread, waiting, holding, acquired, running, worked, released, has_room,
  run_delivery, Move, receive, acquire, spawn, release, Pool, Step, pick, start_consumers, start,
  Reach, begun, later,
}

abbrev pub total : (Thread → ℕ) → List Thread → ℕ
total f [] = 0
total f (t ∷ ts) = f t + total f ts

pub total-append :
    (f : Thread → ℕ) (ts us : List Thread) → total f (ts ++ us) ≡ total f ts + total f us
total-append f [] us = omega arith
total-append f (t ∷ ts) us = omega (arith, total-append f ts us)

-- 1 for a task whose function is yet to return
abbrev pub is_running : Thread → ℕ
is_running (running n d) = 1
is_running _ = 0

-- 1 for a goroutine that has a place in the semaphore
abbrev pub in_sem : Thread → ℕ
in_sem (acquired n d) = 1
in_sem (running n d) = 1
in_sem worked = 1
in_sem _ = 0

-- 1 for a task that has not called wg.Done
abbrev pub in_group : Thread → ℕ
in_group (running n d) = 1
in_group worked = 1
in_group released = 1
in_group _ = 0

abbrev pub same_tag : ℕ → ℕ → ℕ
same_tag t u = elim (compare t u) [ Ordering.eq ↦ 1 | _ ↦ 0 ]

-- 1 for a goroutine that has the delivery with the tag `t` in hand
abbrev pub in_hand : ℕ → Thread → ℕ
in_hand t (holding n d) = same_tag t d.tag
in_hand t (acquired n d) = same_tag t d.tag
in_hand t (running n d) = same_tag t d.tag
in_hand t _ = 0

abbrev pub times_received : ℕ → List Delivery → ℕ
times_received t [] = 0
times_received t (d ∷ ds) = same_tag t d.tag + times_received t ds

abbrev pub times_settled : ℕ → List (Delivery × Answer) → ℕ
times_settled t [] = 0
times_settled t ((d, a) ∷ ds) = same_tag t d.tag + times_settled t ds

pub record Inv (limit : ℕ) (p : Pool) : Type 0 where
  pub room : p.shared.sem ≤ limit
  pub places : total in_sem p.threads ≡ p.shared.sem
  pub group : total in_group p.threads ≡ p.shared.wg
  pub kept :
      (t : ℕ)
      → times_received t p.shared.received
        ≡ times_settled t p.shared.settled + total (in_hand t) p.threads

-- What a move changes of the counts, beside goroutines that count `sems` and `group` themselves.
module _ {env : Env} {limit : ℕ} {can : String → Handler → Type 0} {s : Shared} where
  Move-places :
      {th : Thread} {s' : Shared} {ts : List Thread} (others : ℕ)
      → Move env limit can s th s' ts
      → s.sem ≤ limit
      → others + in_sem th ≡ s.sem
      → (s'.sem ≤ limit) × (others + total in_sem ts ≡ s'.sem)
  unfolding has_room run_delivery
  Move-places others (acquire h) r e = ground arith
  Move-places others release r e = ground arith
  Move-places others spawn r e = ground arith
  Move-places others m r e = ground arith

  Move-group :
      {th : Thread} {s' : Shared} {ts : List Thread} (others : ℕ)
      → Move env limit can s th s' ts
      → others + in_group th ≡ s.wg
      → others + total in_group ts ≡ s'.wg
  unfolding run_delivery
  Move-group others spawn e = omega arith
  Move-group others m e = ground arith

  Move-kept :
      {th : Thread} {s' : Shared} {ts : List Thread} (t others : ℕ)
      → Move env limit can s th s' ts
      → times_received t s.received ≡ times_settled t s.settled + (others + in_hand t th)
      → times_received t s'.received ≡ times_settled t s'.settled + (others + total (in_hand t) ts)
  unfolding run_delivery
  Move-kept t others (receive d) e = omega arith
  Move-kept t others m e = ground arith

pub Step-Inv :
    (env : Env) (limit : ℕ) (can : String → Handler → Type 0) {p q : Pool}
    → Step env limit can p q
    → Inv limit p
    → Inv limit q
Step-Inv env limit can {p} (pick before after {t} {s} {ts} e m) v = record {
  room = sems.0;
  places = omega (arith, sems.1, after_lem in_sem);
  group = omega (arith, groups, after_lem in_group);
  kept = λ tag. omega (arith, hands tag, after_lem (in_hand tag));
}
  where
    others : (Thread → ℕ) → ℕ
    others f = total f before + total f after

    before_lem : (f : Thread → ℕ) → total f p.threads ≡ others f + f t
    before_lem f = rw e (omega (arith, total-append f before (t ∷ after)))

    after_lem : (f : Thread → ℕ) → total f (before ++ (ts ++ after)) ≡ others f + total f ts
    after_lem f = omega (arith, total-append f before (ts ++ after), total-append f ts after)

    sems : (s.sem ≤ limit) × (others in_sem + total in_sem ts ≡ s.sem)
    sems = Move-places (others in_sem) m v.room (omega (arith, before_lem in_sem, v.places))

    groups : others in_group + total in_group ts ≡ s.wg
    groups = Move-group (others in_group) m (omega (arith, before_lem in_group, v.group))

    hands :
        (tag : ℕ)
        → times_received tag s.received
          ≡ times_settled tag s.settled + (others (in_hand tag) + total (in_hand tag) ts)
    hands tag =
        Move-kept tag (others (in_hand tag)) m (omega (arith, before_lem (in_hand tag), v.kept tag))

start_consumers-idle :
    (f : Thread → ℕ) (consumes : String → Bool) (names : List String)
    → ((n : String) → f (waiting n) ≡ 0)
    → total f (start_consumers consumes names) ≡ 0
unfolding start_consumers
start_consumers-idle f consumes [] h = refl
start_consumers-idle f consumes (n ∷ ns) h = elim (Bool-cases (consumes n)) [
  | inl e ↦ rw e (omega (arith, h n, start_consumers-idle f consumes ns h))
  | inr e ↦ rw e (start_consumers-idle f consumes ns h)
]

start-Inv :
    (limit : ℕ) (consumes : String → Bool) (names : List String) (w : World)
    → Inv limit (start consumes names w)
unfolding start
start-Inv limit consumes names w = record {
  room = omega arith;
  places = omega (arith, start_consumers-idle in_sem consumes names (λ n. refl));
  group = omega (arith, start_consumers-idle in_group consumes names (λ n. refl));
  kept = λ t. ground (arith, start_consumers-idle (in_hand t) consumes names (λ n. refl));
}

pub Reach-Inv :
    {env : Env} {limit : ℕ} {can : String → Handler → Type 0} {consumes : String → Bool}
    {names : List String} {w : World} {p : Pool}
    → Reach env limit can consumes names w p
    → Inv limit p
Reach-Inv {limit} {consumes} {names} {w} begun = start-Inv limit consumes names w
Reach-Inv {env} {limit} {can} (later r st) = Step-Inv env limit can st (Reach-Inv r)
