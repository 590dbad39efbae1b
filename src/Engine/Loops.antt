-- ===== src/Engine/Loops.antt =====
-- internal/engine: the goroutines in the background. Each waits in a loop for the context, a
-- ticker or a channel of deliveries; what it finds ready, turn after turn, is a list.
pub mod Refinement
use flowscale.Prelude.{List, [], ◌∷◌, Bool, true, false, Option, String, if◌then◌else◌}
use flowscale.Models.{ActivityResultMessage}
use flowscale.Runtime.{Env, World}
use flowscale.Engine.Outbox.{process_outbox}
use flowscale.Engine.Consumers.{consume_result, consume_heartbeat, reap_timeouts}

-- What a turn of a loop with a ticker finds.
pub data Turn : Type 0 where
  cancelled ticked : Turn

-- What a turn of the heartbeat consumer finds: the context, its closed channel, or a delivery.
pub data Arrival : Type 0 where
  stopped closed : Arrival
  delivered : Option String → Arrival

-- OutboxPublisher.Start
unfoldable pub publisher_start : Env → List Turn → World → World
publisher_start env [] w = w
publisher_start env (cancelled ∷ turns) w = w
publisher_start env (ticked ∷ turns) w = publisher_start env turns (process_outbox env w)

-- scanForTimeouts
unfoldable pub scan_for_timeouts : Env → List Turn → World → World
scan_for_timeouts env [] w = w
scan_for_timeouts env (cancelled ∷ turns) w = w
scan_for_timeouts env (ticked ∷ turns) w = scan_for_timeouts env turns (reap_timeouts env w)

heartbeats : Env → List Arrival → World → World
heartbeats env [] w = w
heartbeats env (stopped ∷ rest) w = w
heartbeats env (closed ∷ rest) w = w
heartbeats env (delivered d ∷ rest) w = heartbeats env rest (consume_heartbeat env d w).1

-- The loop of StartResultConsumer ranges over the deliveries until their channel is closed: it does
-- not look at the context.
report_all : Env → List (Option ActivityResultMessage) → World → World
report_all env [] w = w
report_all env (d ∷ ds) w = report_all env ds (consume_result env d w).1

-- consumeHeartbeats and StartResultConsumer, which end at once where the queue cannot be consumed
-- from.
unfoldable pub start_heartbeat_consumer : Env → Bool → List Arrival → World → World
unfolding heartbeats
start_heartbeat_consumer env consumes arrivals w = if consumes then heartbeats env arrivals w else w

unfoldable pub start_result_consumer :
    Env → Bool → List (Option ActivityResultMessage) → World → World
unfolding report_all
start_result_consumer env consumes ds w = if consumes then report_all env ds w else w
