-- ===== src/Tests/Fleet.antt =====
-- A worker that shuts down, two schedulers on one server, and a broker, with what the theorems say
-- of them.
use Prim.Native.Nat.{compare, Ordering}
use Prim.Native.String.{◌++◌ as ◌+++◌}
use flowscale.Prelude.{
  ℕ, ◌<◌, ◌+◌, ◌≤◌, ◌≡◌, ◌≢◌, refl, Bool, true, false, String, Option, none, some, List, [], ◌∷◌,
  ◌&&◌, ◌||◌, not, any, ◌==◌, arith, if◌then◌else◌,
}
use flowscale.Models.{pos, ActivityTaskMessage}
use flowscale.Runtime.{to_workflow, to_retry}
use flowscale.Worker.Pool.{
  Step, Delivery, drained, shutting, waiting, running, has_room, Pool, pick, Reach, begun, later,
  start, start_consumers, receive, acquire, spawn, cancel, begin_shutdown, wait, drain,
}
use flowscale.Worker.Pool.Counts.{
  total, is_running, in_group, in_hand, times_received, times_settled,
}
use flowscale.Worker.Pool.Progress.{moves_left, Reach-progress}
use flowscale.Worker.Pool.Settled.{Reach-bounded, Reach-answered}
use flowscale.Scheduler.Cluster.{Sessions, Cluster, started, polled, poll_lock, acquire_lock}
use flowscale.Scheduler.Cluster.Leaders.{Leads, one_leader}
use flowscale.Models.{Activity, Workflow}
use flowscale.Api.Seed.{demo_workflows}
use flowscale.Format.{show}
use flowscale.Prelude.Dictionary.{keys, assign}
use flowscale.Tui.{Widgets, Msg, loaded, load_failed, key, view_executions, initial_model, update}
use flowscale.Tui.View.{Paint, view, head_line}
use flowscale.Tui.View.Errors.{run, failed-shown}
use flowscale.Queue.{QueueDecl, by_key, by_tier, retry_tiers, retry_queue, consume_activity}
use flowscale.Queue.Routing.{
  Address, Broker, fits, same_exchange, has_tier, is_plain, register_all, address_of, expired,
  routed, reaches, same_tier, published-delivered,
}
use flowscale.Tests.Scenario.{env, world_of}
use flowscale.System.{empty_tables}
use flowscale.Boot.Activities.{demo_activities, register_activity, register_chunks}

abbrev delivery : Delivery
delivery = record { tag = 7; body = none }

abbrev Late : Pool → Type 0
Late = Reach env 1 (λ n h. Unit) (λ n. true) ("a" ∷ []) (world_of empty_tables)

-- A consumer whose two channels are both ready may take the delivery: a task starts after the worker
-- was reported as drained.
late : (p : Pool) × Late p × (p.threads ≡ drained ∷ waiting "a" ∷ running "a" delivery ∷ [])
unfolding start start_consumers has_room
late =
    let rest = waiting "a" ∷ [] in
    let s1 : (p : Pool) × Late p = (_, later begun (pick [] rest refl cancel)) in
    let s2 : (p : Pool) × Late p = (_, later s1.1 (pick [] rest refl begin_shutdown)) in
    let s3 : (p : Pool) × Late p = (_, later s2.1 (pick (shutting ∷ []) rest refl (wait refl))) in
    let s4 : (p : Pool) × Late p = (_, later s3.1 (pick [] rest refl (drain refl))) in
    let s5 : (p : Pool) × Late p =
      (_, later s4.1 (pick (drained ∷ []) [] refl (receive delivery))) in
    let s6 : (p : Pool) × Late p = (_, later s5.1 (pick (drained ∷ []) [] refl (acquire refl))) in
    (_, later s6.1 (pick (drained ∷ []) [] refl spawn), refl)

Reach-bounded_example :
    (total is_running late.0.threads ≤ 1) × (late.0.shared.wg ≡ total in_group late.0.threads)
Reach-bounded_example = Reach-bounded late.1

Reach-answered_example :
    times_received 7 late.0.shared.received
    ≡ times_settled 7 late.0.shared.settled + total (in_hand 7) late.0.threads
Reach-answered_example = Reach-answered late.1 7

abbrev charge_task : ActivityTaskMessage
charge_task = record {
  execution_id = "e";
  activity_id = "a";
  activity_name = "charge";
  idempotency_key = "k";
}

Reach-progress_example :
    (q : Pool) × Step env 1 (λ n h. Unit) late.0 q
    × (total moves_left q.threads < total moves_left late.0.threads)
unfolding late
Reach-progress_example = Reach-progress (pos 1) (λ n. ((λ t w. (none, w)), tt)) late.1 (omega arith)

abbrev same : ℕ → ℕ → Bool
same a b = elim (compare a b) [ Ordering.eq ↦ true | _ ↦ false ]

abbrev owns : ℕ → Option ℕ → Bool
owns a none = false
owns a (some b) = same a b

-- The live sessions of a server, and the owner of its one lock.
abbrev Live : Type 0
Live = (ℕ → Bool) × Option ℕ

abbrev leave : ℕ → Live → Live
leave a s = ((λ b. s.0 b && not (same a b)), if owns a s.1 then none else s.1)

abbrev attempt_lock : ℕ → Live → Option Bool × Live
attempt_lock a (live, none) = (some true, (live, some a))
attempt_lock a (live, some b) = (some (same a b), (live, some b))

owner_unique : (a b : ℕ) (s : Live) → owns a s.1 ≡ true → owns b s.1 ≡ true → a ≡ b
owner_unique a b (live, none) h k = cc
owner_unique a b (live, some c) h k = ground arith

attempt_lock-granted :
    (a : ℕ) (s : Live) → (attempt_lock a s).0 ≡ some true → owns a (attempt_lock a s).1.1 ≡ true
attempt_lock-granted a (live, none) h = ground arith
attempt_lock-granted a (live, some c) h = ground arith

connect_kept :
    (a b : ℕ) (s : Live)
    → a ≢ b
    → (s.0 b || same a b) ≡ true
    → (s.0 b ≡ true) × (owns b s.1 ≡ true → owns b s.1 ≡ true)
connect_kept a b s n h = (ground arith, λ k. k)

attempt_lock-kept :
    (a b : ℕ) (s : Live)
    → a ≢ b
    → (attempt_lock a s).1.0 b ≡ true
    → (s.0 b ≡ true) × (owns b s.1 ≡ true → owns b (attempt_lock a s).1.1 ≡ true)
attempt_lock-kept a b (live, none) n h = (h, λ k. cc)
attempt_lock-kept a b (live, some c) n h = (h, λ k. k)

unlock_kept :
    (a b : ℕ) (s : Live)
    → a ≢ b
    → s.0 b ≡ true
    → (s.0 b ≡ true) × (owns b s.1 ≡ true → owns b (if owns a s.1 then none else s.1) ≡ true)
unlock_kept a b (live, none) n h = (h, λ k. k)
unlock_kept a b (live, some c) n h = (h, λ k. ground arith)

leave_kept :
    (a b : ℕ) (s : Live)
    → a ≢ b
    → (leave a s).0 b ≡ true
    → (s.0 b ≡ true) × (owns b s.1 ≡ true → owns b (leave a s).1 ≡ true)
leave_kept a b s n h = unlock_kept a b s n (ground arith)

leave_dead : (a : ℕ) (s : Live) → (leave a s).0 a ≡ false
leave_dead a s = ground arith

abbrev one_lock : Sessions
one_lock = record {
  State = Live;
  ping = λ a s. s.0 a;
  holds = λ a s. owns a s.1;
  connect = λ a s. (true, ((λ b. s.0 b || same a b), s.1));
  try_lock = attempt_lock;
  unlock = λ a s. (s.0, if owns a s.1 then none else s.1);
  close = leave;
  lose = leave;
  exclusive = owner_unique;
  granted = attempt_lock-granted;
  connect_frame = connect_kept;
  lock_frame = attempt_lock-kept;
  unlock_frame = unlock_kept;
  close_frame = leave_kept;
  lose_frame = leave_kept;
  closed = leave_dead;
  lost = leave_dead;
}

abbrev polled_twice : Cluster one_lock
polled_twice =
    (poll_lock one_lock 1
      (poll_lock one_lock 0
        (record { conns = λ i. none; server = ((λ a. false), none); opened = 0 })).1).1

zero-Leads : Leads one_lock polled_twice 0
unfolding poll_lock acquire_lock
zero-Leads = (0, refl, refl)

one_leader_example : ◌≡◌ {A = ℕ} 0 0
one_leader_example =
    one_leader one_lock (polled 1 (polled 0 (started ((λ a. false), none)))) 0 0 zero-Leads
      zero-Leads

abbrev names : List String
names = "charge" ∷ "reserve" ∷ []

pub fits-elsewhere :
    (a : Address) (d : QueueDecl) → same_exchange a.exchange d.exchange ≡ false → fits a d ≡ false
fits-elsewhere a d h = rw h refl

pub fits-key :
    (a : Address) (d : QueueDecl) (n : String)
    → same_exchange a.exchange d.exchange ≡ true
    → d.binding ≡ by_key n
    → is_plain n ≡ true
    → fits a d ≡ (n == a.key)
fits-key a d n x e p = rw (x, e) refl

pub fits-header :
    (a : Address) (d : QueueDecl) (t : ℕ)
    → same_exchange a.exchange d.exchange ≡ true
    → d.binding ≡ by_tier t
    → fits a d ≡ has_tier a.tier t
fits-header a d t x e = rw (x, e) refl

abbrev pub broker : Broker
broker = record {
  puts = fits;
  elsewhere = fits-elsewhere;
  same_key = fits-key;
  same_header = fits-header;
}

published-delivered_example :
    (reaches broker
        (register_all names)
        (address_of (to_workflow "charge" charge_task))
        "charge.queue"
      ≡ (consume_activity "charge" == "charge.queue"))
    × (routed broker (register_all names) (address_of (to_retry "charge" (pos 4) charge_task))
        ≡ (if any (same_tier 4) retry_tiers then retry_queue 4 ∷ [] else []))
    × (reaches broker
          (register_all names)
          (expired (address_of (to_retry "charge" (pos 4) charge_task)))
          "charge.queue"
        ≡ (consume_activity "charge" == "charge.queue"))
unfolding any is_plain
published-delivered_example =
    published-delivered broker names "charge" "charge.queue" charge_task 4 (refl, (refl, tt)) refl

abbrev plain_paint : Paint
plain_paint = record {
  colored = λ c s. s;
  bold = λ s. s;
  active_tab_style = λ s. s;
  tab_style = λ s. s;
  base_style = λ s. s;
  help_style = λ s. s;
  table_view = λ cs rs n. "";
  viewport_view = λ s. s;
  input_view = λ s. s;
  help_view = λ bs. "";
  clock = λ t. "";
  payload_text = λ p. "{}";
  shown_error = "500";
}

abbrev ui : Widgets
ui = record { edit = λ k s. s; move = λ k n c. c; settle = λ n c. c }

-- An error, then a load that succeeds, and a key.
abbrev later_messages : List (Option (List Workflow) × Msg)
later_messages = (none, loaded view_executions [] "") ∷ (none, key "2") ∷ []

failed-shown_example :
    (let m' = run ui later_messages (update ui none load_failed initial_model).tui in
      view plain_paint m'
      ≡ ◌+++◌ (head_line plain_paint m') (◌+++◌ "Error: " (◌+++◌ plain_paint.shown_error "\n")))
failed-shown_example = failed-shown ui plain_paint none later_messages initial_model

-- Every step and every compensation of the seeded workflows is registered with a worker.
abbrev needed_by : List Activity → List String
needed_by [] = []
needed_by (a ∷ as_) =
    a.name ∷ (if a.compensation == "" then needed_by as_ else a.compensation ∷ needed_by as_)

abbrev all_registered : List String → Bool
all_registered [] = true
all_registered (n ∷ ns) = any (λ k. k == n) (keys demo_activities) && all_registered ns

abbrev all_served : List Workflow → Bool
all_served [] = true
all_served (wf ∷ wfs) = all_registered (needed_by wf.activities) && all_served wfs

seeds_registered : all_served demo_workflows ≡ true
unfolding demo_workflows demo_activities register_activity register_chunks keys assign show any
seeds_registered = refl
