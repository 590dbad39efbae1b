-- ===== src/Worker/Pool/Progress.antt =====
-- A worker never gets stuck: what it has taken can always be brought further.
use flowscale.Prelude.{
  ℕ, ◌<◌, ◌≡◌, refl, ap, ◌⊎◌, inl, inr, Bool, true, ltb, String, List, [], ◌∷◌, ◌++◌, arith,
}
use flowscale.Models.{ℤ, pos, negsuc}
use flowscale.Runtime.{Env, World}
use flowscale.Worker.{Handler}
use flowscale.Worker.Pool.{
  Shared, Thread, holding, acquired, running, worked, released, max_concurrency, has_room, Move,
  acquire, spawn, work, release, finish, Pool, Step, pick, Reach,
}
use flowscale.Worker.Pool.Counts.{total, total-append, in_sem, Reach-Inv}

-- The moves that are left for what a goroutine has in hand.
abbrev pub moves_left : Thread → ℕ
moves_left (holding n d) = 5
moves_left (acquired n d) = 4
moves_left (running n d) = 3
moves_left worked = 2
moves_left released = 1
moves_left _ = 0

-- A place in the list of threads where a goroutine can move and has fewer moves left then.
record Ready (env : Env) (limit : ℕ) (can : String → Handler → Type 0) (s : Shared)
    (ts : List Thread) : Type 0 where
  before : List Thread
  thread : Thread
  after : List Thread
  place : ts ≡ before ++ (thread ∷ after)
  s' : Shared
  new : List Thread
  move : Move env limit can s thread s' new
  less : total moves_left new < moves_left thread

module _ {env : Env} {limit : ℕ} {can : String → Handler → Type 0}
    (some_handler : (n : String) → (h : Handler) × can n h) (s : Shared) where
  here_ :
      (t : Thread) (ts : List Thread) (s' : Shared) (new : List Thread)
      → Move env limit can s t s' new
      → total moves_left new < moves_left t
      → Ready env limit can s (t ∷ ts)
  here_ t ts s' new m l = record {
    before = [];
    thread = t;
    after = ts;
    place = refl;
    s' = s';
    new = new;
    move = m;
    less = l;
  }

  there_ :
      (t : Thread) (ts : List Thread) → Ready env limit can s ts → Ready env limit can s (t ∷ ts)
  there_ t ts r = record {
    before = t ∷ r.before;
    thread = r.thread;
    after = r.after;
    place = ap (λ us. t ∷ us) r.place;
    s' = r.s';
    new = r.new;
    move = r.move;
    less = r.less;
  }

  -- A task or a consumer with a place can move; otherwise nobody has a place in the semaphore.
  task-Ready : (ts : List Thread) → Ready env limit can s ts ⊎ (total in_sem ts ≡ 0)
  task-Ready [] = inr refl
  task-Ready (acquired n d ∷ ts) = inl (here_ _ ts _ _ spawn (omega arith))
  task-Ready (running n d ∷ ts) =
      let (h, c) = some_handler n in inl (here_ _ ts _ _ (work h c) (omega arith))
  task-Ready (worked ∷ ts) = inl (here_ _ ts _ _ release (omega arith))
  task-Ready (released ∷ ts) = inl (here_ _ ts _ _ finish (omega arith))
  task-Ready (t ∷ ts) = elim (task-Ready ts) [
    | inl r ↦ inl (there_ t ts r)
    | inr e ↦ inr (omega arith)
  ]

  -- With room in the semaphore a consumer that has a delivery can move too.
  roomy-Ready :
      (ts : List Thread)
      → has_room limit s ≡ true
      → 0 < total moves_left ts
      → Ready env limit can s ts
  roomy-Ready [] room h = absurd (omega arith)
  roomy-Ready (holding n d ∷ ts) room h = here_ _ ts _ _ (acquire room) (omega arith)
  roomy-Ready (acquired n d ∷ ts) room h = here_ _ ts _ _ spawn (omega arith)
  roomy-Ready (running n d ∷ ts) room h =
      let (f, c) = some_handler n in here_ _ ts _ _ (work f c) (omega arith)
  roomy-Ready (worked ∷ ts) room h = here_ _ ts _ _ release (omega arith)
  roomy-Ready (released ∷ ts) room h = here_ _ ts _ _ finish (omega arith)
  roomy-Ready (t ∷ ts) room h = there_ t ts (roomy-Ready ts room (omega arith))

max_concurrency-pos : (max : ℤ) → 0 < max_concurrency max
max_concurrency-pos (pos n) = ground arith
max_concurrency-pos (negsuc n) = omega arith

roomy : (limit sem : ℕ) → 0 < limit → sem ≡ 0 → ltb sem limit ≡ true
roomy limit sem h e = ground arith

module _ {env : Env} {can : String → Handler → Type 0} where
  Ready-step :
      {limit : ℕ} (p : Pool)
      → Ready env limit can p.shared p.threads
      → (q : Pool) × Step env limit can p q
        × (total moves_left q.threads < total moves_left p.threads)
  Ready-step p r = (
    _,
    pick r.before r.after r.place r.move,
    rw r.place (
        omega (
          arith,
          r.less,
          total-append moves_left r.before (r.new ++ r.after),
          total-append moves_left r.new r.after,
          total-append moves_left r.before (r.thread ∷ r.after),
        )),
  )

  -- A worker never gets stuck: as long as a delivery or a task is in the hands of a goroutine, some
  -- goroutine can move so that fewer moves are left for what is in hand. The limit is the one that
  -- NewWorker makes of its argument, and every activity's function can end.
  pub Reach-progress :
      (max : ℤ) {consumes : String → Bool} {names : List String} {w : World} {p : Pool}
      → ((n : String) → (h : Handler) × can n h)
      → Reach env (max_concurrency max) can consumes names w p
      → 0 < total moves_left p.threads
      → (q : Pool) × Step env (max_concurrency max) can p q
        × (total moves_left q.threads < total moves_left p.threads)
  unfolding has_room
  Reach-progress max {p} some_handler r busy =
      let positive = max_concurrency-pos max in
      Ready-step p (elim (task-Ready some_handler p.shared p.threads) [
        | inl ready ↦ ready
        | inr none_in ↦
            roomy-Ready some_handler p.shared p.threads
              (roomy (max_concurrency max) p.shared.sem positive
                (omega (arith, (Reach-Inv r).places, none_in)))
              busy
      ])
