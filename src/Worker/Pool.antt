-- ===== src/Worker/Pool.antt =====
-- internal/worker/worker.go: the goroutines of a worker, interleaved in any order. Start has one
-- consumer for each activity, which takes a place in the semaphore before it spawns a task; the
-- main goroutine cancels the context and waits in Shutdown. A `select` whose cases are ready at
-- once takes any of them. A run of a task is one move, and the consumers are there from the start.
pub mod Counts
pub mod Progress
pub mod Settled
use flowscale.Prelude.{
  ℕ, suc, ◌-◌, ◌≡◌, true, false, Bool, String, Option, List, [], ◌∷◌, ◌++◌, ltb, if◌then◌else◌,
}
use flowscale.Models.{ℤ, pos, negsuc, ActivityTaskMessage}
use flowscale.Runtime.{Env, World}
use flowscale.Engine.Consumers.{Answer, requeued}
use flowscale.Worker.{Handler, handle_delivery}

-- A delivery of RabbitMQ with its tag; a body that does not unmarshal is `none`.
pub record Delivery : Type 0 where
  pub tag : ℕ
  pub body : Option ActivityTaskMessage

-- What the goroutines share. `received` and `settled` are what passed between the worker and the
-- broker: the deliveries, and the calls of Ack and Nack.
pub record Shared : Type 0 where
  pub world : World
  pub sem : ℕ  -- places taken in the semaphore
  pub wg : ℕ
  pub cancelled : Bool  -- ctx.Done() is closed
  pub done : Bool  -- the channel of Shutdown is closed
  pub received : List Delivery
  pub settled : List (Delivery × Answer)

-- Where a goroutine stands. One that has returned is no longer in the list of threads.
pub data Thread : Type 0 where
  waiting : String → Thread  -- a consumer at its outer select
  holding : String → Delivery → Thread  -- a consumer at the select for the semaphore
  acquired : String → Delivery → Thread  -- a consumer before wg.Add
  running : String → Delivery → Thread  -- a task
  worked : Thread  -- a task before it leaves the semaphore
  released : Thread  -- a task before wg.Done
  serving : Thread  -- main, before cancel()
  stopping : Thread  -- main, before Shutdown
  awaiting : Thread  -- the goroutine at wg.Wait
  shutting : Thread  -- main, at the select of Shutdown
  drained : Thread
  timed_out : Thread

-- NewWorker: a limit that is not positive is 100.
abbrev pub max_concurrency : ℤ → ℕ
max_concurrency (pos n) = if ltb 0 n then n else 100
max_concurrency (negsuc n) = 100

-- The channel of the semaphore takes a value while it is not full.
unfoldable pub has_room : ℕ → Shared → Bool
has_room limit s = ltb s.sem limit

abbrev pub take_place : Shared → Shared
take_place s = record s { sem = suc s.sem }

abbrev pub leave_place : Shared → Shared
leave_place s = record s { sem = s.sem - 1 }

abbrev pub add_task : Shared → Shared
add_task s = record s { wg = suc s.wg }

abbrev pub task_done : Shared → Shared
task_done s = record s { wg = s.wg - 1 }

abbrev pub receive_delivery : Delivery → Shared → Shared
receive_delivery d s = record s { received = d ∷ s.received }

abbrev pub answer_delivery : Delivery → Answer → Shared → Shared
answer_delivery d a s = record s { settled = (d, a) ∷ s.settled }

-- The body of the task's goroutine. What the activity's function does at this call is `handler`.
unfoldable pub run_delivery : Env → String → Handler → Delivery → Shared → Shared
run_delivery env name handler d s =
    let (a, w) = handle_delivery env name handler d.body s.world in
    answer_delivery d a (record s { world = w })

-- One step of one goroutine, with the goroutines that stand in its place afterwards. The function that
-- is registered for an activity does at each call what `can` allows.
pub data Move (env : Env) (limit : ℕ) (can : String → Handler → Type 0) (s : Shared)
    : Thread → Shared → List Thread → Type 0 where
  receive :
      {n : String} (d : Delivery)
      → Move env limit can s (waiting n) (receive_delivery d s) (holding n d ∷ [])
  channel_closed : {n : String} → Move env limit can s (waiting n) s []
  quit : {n : String} → s.cancelled ≡ true → Move env limit can s (waiting n) s []
  acquire :
      {n : String} {d : Delivery}
      → has_room limit s ≡ true
      → Move env limit can s (holding n d) (take_place s) (acquired n d ∷ [])
  give_back :
      {n : String} {d : Delivery}
      → s.cancelled ≡ true
      → Move env limit can s (holding n d) (answer_delivery d requeued s) []
  spawn :
      {n : String} {d : Delivery}
      → Move env limit can s (acquired n d) (add_task s) (waiting n ∷ running n d ∷ [])
  work :
      {n : String} {d : Delivery} (handler : Handler)
      → can n handler
      → Move env limit can s (running n d) (run_delivery env n handler d s) (worked ∷ [])
  release : Move env limit can s worked (leave_place s) (released ∷ [])
  finish : Move env limit can s released (task_done s) []
  cancel : Move env limit can s serving (record s { cancelled = true }) (stopping ∷ [])
  begin_shutdown : Move env limit can s stopping s (shutting ∷ awaiting ∷ [])
  wait : s.wg ≡ 0 → Move env limit can s awaiting (record s { done = true }) []
  drain : s.done ≡ true → Move env limit can s shutting s (drained ∷ [])
  time_out : Move env limit can s shutting s (timed_out ∷ [])

pub record Pool : Type 0 where
  pub shared : Shared
  pub threads : List Thread

-- A goroutine of the pool moves.
pub data Step (env : Env) (limit : ℕ) (can : String → Handler → Type 0) (p : Pool)
    : Pool → Type 0 where
  pick :
      (before after : List Thread) {t : Thread} {s : Shared} {ts : List Thread}
      → p.threads ≡ before ++ (t ∷ after)
      → Move env limit can p.shared t s ts
      → Step env limit can p (record { shared = s; threads = before ++ (ts ++ after) })

-- The loop of Start over the registered activities: one whose queue cannot be consumed from has no
-- consumer.
unfoldable pub start_consumers : (String → Bool) → List String → List Thread
start_consumers consumes [] = []
start_consumers consumes (n ∷ ns) =
    let rest = start_consumers consumes ns in if consumes n then waiting n ∷ rest else rest

abbrev pub new_shared : World → Shared
new_shared w = record {
  world = w;
  sem = 0;
  wg = 0;
  cancelled = false;
  done = false;
  received = [];
  settled = [];
}

unfoldable pub start : (String → Bool) → List String → World → Pool
start consumes names w = record {
  shared = new_shared w;
  threads = serving ∷ start_consumers consumes names;
}

-- What a worker reaches that was started in the world `w` with these activities.
pub data Reach (env : Env) (limit : ℕ) (can : String → Handler → Type 0) (consumes : String → Bool)
    (names : List String) (w : World) : Pool → Type 0 where
  begun : Reach env limit can consumes names w (start consumes names w)
  later :
      {p q : Pool}
      → Reach env limit can consumes names w p
      → Step env limit can p q
      → Reach env limit can consumes names w q
