-- ===== src/Tests/Claims.antt =====
-- Each property at a concrete input.
use flowscale.Prelude.{
  ℕ, ◌+◌, ◌<◌, refl, true, false, String, none, some, List, [], ◌∷◌, ◌++◌, ◌≡◌, ◌⊎◌, any, find,
}
use flowscale.Models.{pos, ActivityStatus, ActivityExecution, Activity, OutboxMessage}
use flowscale.Queue.{retry_tiers}
use flowscale.Repository.Sql.{fits_int32}
use flowscale.Engine.Compensation.{determine_next_compensation, collect, scan}
use flowscale.Engine.Compensation.Choice.{
  has_run, to_undo, last_some, determine_next_compensation-last_some,
}
use flowscale.Engine.Compensation.Progress.{left, determine_next_compensation-progress}
use flowscale.Engine.Success.{report_activity_success}
use flowscale.Engine.Failure.{report_activity_failure, retry_tier}
use flowscale.Engine.Failure.Tiers.{backoff, same, retry_tier-table}
use flowscale.Engine.Manual.{retry_compensation, cancel}
use flowscale.Engine.Effects.{Effect, of_success, of_failure, of_retry, of_cancel, handlers-Effect}
use flowscale.Engine.Lock.Release.{Released, handlers-Released}
use flowscale.Engine.Outbox.{publish_message, process_outbox}
use flowscale.Engine.Outbox.Order.{Outcome, publish_message-Outcome}
use flowscale.Runtime.{World}
use flowscale.System.{
  on_create, on_start, on_publish, perform, Reachable, initial, step, empty_tables,
}
use flowscale.Invariant.Publisher.{Invariant, process_outbox-Invariant}
use flowscale.Invariant.System.{Reachable-Invariant}
use flowscale.Tests.Scenario.{env, saga, world_of}

-- The saga created, started and announced.
abbrev blank : World
blank = world_of empty_tables

abbrev announced : World
announced = perform env on_publish (perform env (on_start "w") (perform env (on_create saga) blank))

announced-Reachable : Reachable env announced
announced-Reachable =
    step on_publish _ (step (on_start "w") _ (step (on_create saga) _ (initial blank refl)))

Reachable-Invariant_example : Invariant announced
Reachable-Invariant_example = Reachable-Invariant env announced announced-Reachable

process_outbox-Invariant_example : Invariant (process_outbox env announced)
process_outbox-Invariant_example =
    process_outbox-Invariant env announced (Reachable-Invariant env announced announced-Reachable)

abbrev message : OutboxMessage
message = record {
  id = "m";
  topic = "ship";
  tier = pos 4;
  payload = some record {
    execution_id = "e";
    activity_id = "a";
    activity_name = "ship";
    idempotency_key = "e-ship-3";
  };
  created_at = 7;
}

publish_message-Outcome_example : Outcome message blank (publish_message env message blank)
publish_message-Outcome_example = publish_message-Outcome env message blank

-- Two steps have run, and the third has failed.
abbrev row : String → ActivityStatus → ActivityExecution
row name status = record {
  id = name;
  execution_id = "e";
  activity_name = name;
  attempt = 1;
  status = status;
  idempotency_key = name;
  started_at = none;
  completed_at = some 1;
  dead_lettered_at = none;
}

abbrev failing : List ActivityExecution
failing =
    row "reserve" ActivityStatus.completed
    ∷ row "charge" ActivityStatus.completed
    ∷ row "ship" ActivityStatus.failed
    ∷ []

abbrev refund : Activity
refund = record { name = "refund"; compensation = ""; retry_policy = none; timeout = "5m" }

chosen : determine_next_compensation saga failing ≡ some refund
unfolding determine_next_compensation collect scan any find
chosen = refl

determine_next_compensation-last_some_example :
    determine_next_compensation saga failing ≡ last_some (to_undo saga failing) failing
determine_next_compensation-last_some_example = determine_next_compensation-last_some saga failing

abbrev refunded : ActivityExecution
refunded = row "refund" ActivityStatus.completed

refunded-run : has_run saga refunded ≡ true
unfolding any
refunded-run = refl

determine_next_compensation-progress_example :
    left saga (failing ++ refunded ∷ []) (failing ++ refunded ∷ []) < left saga failing failing
determine_next_compensation-progress_example =
    determine_next_compensation-progress saga failing refunded refund chosen refunded-run refl

handlers-Effect_example :
    Effect "e" of_success announced.db (report_activity_success env "a" "e" "ship" announced).1.db
    × Effect "e" of_failure announced.db
        (report_activity_failure env "a" "e" "ship" true announced).1.db
    × Effect "e" of_retry announced.db (retry_compensation env "e" announced).1.db
    × Effect "e" of_cancel announced.db (cancel env "e" announced).1.db
handlers-Effect_example = handlers-Effect env "e" announced "a" "ship" true

handlers-Released_example :
    Released env "e" announced (report_activity_success env "a" "e" "ship" announced).1
    × Released env "e" announced (report_activity_failure env "a" "e" "ship" true announced).1
    × Released env "e" announced (retry_compensation env "e" announced).1
handlers-Released_example = handlers-Released env "e" "a" "ship" true announced

abbrev two : ℕ
two = 2

retry_tier-table_example :
    ((two < 63)
      × (retry_tier (two + 2) ≡ pos (backoff two))
      × (any (same (backoff two)) retry_tiers ≡ true))
    ⊎ ((two ≡ 63) × (fits_int32 (retry_tier (two + 2)) ≡ false))
    ⊎ ((63 < two) × (retry_tier (two + 2) ≡ pos 0))
retry_tier-table_example = retry_tier-table two
