-- ===== src/Engine/Consumers.antt =====
-- The consumers of internal/engine: StartResultConsumer of engine.go, and consumeHeartbeats and
-- reapTimeouts of reaper.go. A delivery whose body does not unmarshal is `none`.
pub mod Fresh
use flowscale.Prelude.{
  ℕ, ◌-◌, ◌*◌, ◌^◌, String, Option, none, some, List, [], ◌∷◌, Bool, false, ltb, ◌==◌, ◌&&◌, select,
  if◌then◌else◌,
}
use flowscale.Models.{ActivityResultMessage, is_pending}
use flowscale.Runtime.{Env, World, ActivityExecutionRow, M, Result, ok, err, tick, query}
use flowscale.Repository.ExecutionRepo.{record_heartbeat}
use flowscale.Engine.Success.{report_activity_success}
use flowscale.Engine.Failure.{report_activity_failure}

-- How a consumer answers a delivery.
pub data Answer : Type 0 where
  acked discarded requeued : Answer

abbrev pub answer_of : Result (Unit {0}) → Answer
answer_of (ok _) = acked
answer_of (err e) = requeued

unfoldable pub report : Env → ActivityResultMessage → M Unit
report env res =
    if res.success
    then report_activity_success env res.activity_id res.execution_id res.activity_name
    else report_activity_failure env res.activity_id res.execution_id res.activity_name
        res.non_retryable

unfoldable pub consume_result : Env → Option ActivityResultMessage → World → Answer × World
consume_result env none w = (discarded, w)
consume_result env (some res) w = let (r, w') = report env res w in (answer_of r, w')

-- The value under "activity_id", "" if there is none. A heartbeat is acked whatever came of it.
unfoldable pub consume_heartbeat : Env → Option String → World → Answer × World
consume_heartbeat env none w = (discarded, w)
consume_heartbeat env (some activity_id) w =
    (acked, if activity_id == "" then w else (record_heartbeat env activity_id w).1)

-- 5 * time.Minute, in nanoseconds
abbrev pub timeout_duration : ℕ
timeout_duration = 300 * 10 ^ 9

abbrev older : ℕ → Option ℕ → Bool
older threshold none = false
older threshold (some t) = ltb t threshold

-- WHERE status = PENDING AND last_heartbeat_at < $2; a NULL heartbeat is not older.
abbrev pub is_stale : ℕ → ActivityExecutionRow → Bool
is_stale threshold row = is_pending row.act.status && older threshold row.last_heartbeat_at

unfoldable pub stale_in : ℕ → List ActivityExecutionRow → List ActivityExecutionRow
stale_in threshold rows = select (is_stale threshold) rows

-- Each timed-out activity is reported as a failure that may be retried; an error is logged.
unfoldable pub fail_all : Env → List ActivityExecutionRow → World → World
fail_all env [] w = w
fail_all env (row ∷ rows) w =
    fail_all env rows
      (report_activity_failure env row.act.id row.act.execution_id row.act.activity_name false w).1

abbrev reap_found : Env → Result (List ActivityExecutionRow) → World → World
reap_found env (err e) w = w
reap_found env (ok rows) w = fail_all env rows w

unfoldable pub reap_stale : Env → ℕ → World → World
reap_stale env threshold w =
    let (r, w') = query env (λ db. ok (stale_in threshold db.activity_executions)) w in
    reap_found env r w'

-- Connect, try the advisory lock 2000, read the clock and reap; the unlock comes last.
unfoldable pub reap_timeouts : Env → World → World
reap_timeouts env w =
    if env.db_fails w.calls
    then tick w
    else let w' = tick w in
      if env.db_fails w'.calls
      then tick w'
      else if env.lock_granted w'.calls
      then tick (reap_stale env (env.now w'.calls - timeout_duration) (tick w'))
      else tick w'
