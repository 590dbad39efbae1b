-- ===== src/Worker/Pool/Settled.antt =====
-- What a worker promises of its tasks: no more at a time than the semaphore allows, and an answer
-- for every delivery.
use flowscale.Prelude.{ℕ, ◌+◌, ◌≤◌, ◌≡◌, Bool, String, List, [], ◌∷◌, arith}
use flowscale.Runtime.{Env, World}
use flowscale.Worker.{Handler}
use flowscale.Worker.Pool.{Thread, holding, acquired, Pool, Reach}
use flowscale.Worker.Pool.Counts.{
  total, is_running, in_sem, in_group, in_hand, times_received, times_settled, Reach-Inv,
}

is_running-le-in_sem : (ts : List Thread) → total is_running ts ≤ total in_sem ts
is_running-le-in_sem [] = omega arith
is_running-le-in_sem (t ∷ ts) = ground (arith, is_running-le-in_sem ts)

-- 1 for a consumer that has a delivery
abbrev pub is_busy : Thread → ℕ
is_busy (holding n d) = 1
is_busy (acquired n d) = 1
is_busy _ = 0

in_hand-le :
    (t : ℕ) (ts : List Thread) → total (in_hand t) ts ≤ total is_busy ts + total in_group ts
in_hand-le t [] = omega arith
in_hand-le t (th ∷ ts) = ground (arith, in_hand-le t ts)

module _ {env : Env} {limit : ℕ} {can : String → Handler → Type 0} {consumes : String → Bool}
    {names : List String} {w : World} {p : Pool} (r : Reach env limit can consumes names w p) where
  -- Whatever the consumers, the tasks and main do, in any order: no more tasks run than the worker's
  -- limit, and the WaitGroup counts the tasks that have not ended.
  pub Reach-bounded :
      (total is_running p.threads ≤ limit) × (p.shared.wg ≡ total in_group p.threads)
  Reach-bounded =
      let v = Reach-Inv r in
      omega (arith, v.room, v.places, v.group, is_running-le-in_sem p.threads)

  -- A delivery that was received is in the hands of one goroutine or has been answered once: the
  -- deliveries with a tag are as many as the answers under it and the goroutines that have one.
  pub Reach-answered :
      (tag : ℕ)
      → times_received tag p.shared.received
        ≡ times_settled tag p.shared.settled + total (in_hand tag) p.threads
  Reach-answered tag = (Reach-Inv r).kept tag

  -- When no task is left and no consumer has a delivery, every delivery that was received has been
  -- acknowledged, discarded or requeued, as often as it was received.
  pub quiet-answered :
      p.shared.wg ≡ 0
      → total is_busy p.threads ≡ 0
      → (tag : ℕ) → times_settled tag p.shared.settled ≡ times_received tag p.shared.received
  quiet-answered g b tag =
      let v = Reach-Inv r in omega (arith, v.group, v.kept tag, in_hand-le tag p.threads)
