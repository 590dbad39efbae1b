-- ===== src/Engine/Loops/Refinement.antt =====
-- The goroutines of the engine as clients of the abstract machine.
use flowscale.Prelude.{List, [], ◌∷◌, Bool, true, false, Option}
use flowscale.Models.{ActivityResultMessage}
use flowscale.Runtime.{Env, World}
use flowscale.Engine.Loops.{
  Turn, cancelled, ticked, Arrival, stopped, closed, delivered, publisher_start, scan_for_timeouts,
  heartbeats, report_all, start_heartbeat_consumer, start_result_consumer,
}
use flowscale.System.{Reachable, step, perform, on_publish, on_reap, on_heartbeat, on_result}

module _ (env : Env) where
  publisher_start-Reachable :
      (turns : List Turn) (w : World)
      → Reachable env w
      → Reachable env (publisher_start env turns w)
  unfolding publisher_start perform
  publisher_start-Reachable [] w r = r
  publisher_start-Reachable (cancelled ∷ turns) w r = r
  publisher_start-Reachable (ticked ∷ turns) w r =
      publisher_start-Reachable turns _ (step on_publish w r)

  scan_for_timeouts-Reachable :
      (turns : List Turn) (w : World)
      → Reachable env w
      → Reachable env (scan_for_timeouts env turns w)
  unfolding scan_for_timeouts perform
  scan_for_timeouts-Reachable [] w r = r
  scan_for_timeouts-Reachable (cancelled ∷ turns) w r = r
  scan_for_timeouts-Reachable (ticked ∷ turns) w r =
      scan_for_timeouts-Reachable turns _ (step on_reap w r)

  heartbeats-Reachable :
      (arrivals : List Arrival) (w : World)
      → Reachable env w
      → Reachable env (heartbeats env arrivals w)
  unfolding heartbeats perform
  heartbeats-Reachable [] w r = r
  heartbeats-Reachable (stopped ∷ rest) w r = r
  heartbeats-Reachable (closed ∷ rest) w r = r
  heartbeats-Reachable (delivered d ∷ rest) w r =
      heartbeats-Reachable rest _ (step (on_heartbeat d) w r)

  report_all-Reachable :
      (ds : List (Option ActivityResultMessage)) (w : World)
      → Reachable env w
      → Reachable env (report_all env ds w)
  unfolding report_all perform
  report_all-Reachable [] w r = r
  report_all-Reachable (d ∷ ds) w r = report_all-Reachable ds _ (step (on_result d) w r)

  -- The goroutines that an engine starts lead from reachable states of System to reachable states,
  -- whatever ticks and deliveries they get, cancelled or not.
  pub loops-Reachable :
      (turns scans : List Turn) (consumes : Bool) (arrivals : List Arrival)
      (ds : List (Option ActivityResultMessage)) (w : World)
      → Reachable env w
      → Reachable env (publisher_start env turns w)
        × Reachable env (scan_for_timeouts env scans w)
        × Reachable env (start_heartbeat_consumer env consumes arrivals w)
        × Reachable env (start_result_consumer env consumes ds w)
  unfolding start_heartbeat_consumer start_result_consumer
  loops-Reachable turns scans true arrivals ds w r = (
    publisher_start-Reachable turns w r,
    scan_for_timeouts-Reachable scans w r,
    heartbeats-Reachable arrivals w r,
    report_all-Reachable ds w r,
  )
  loops-Reachable turns scans false arrivals ds w r =
      (publisher_start-Reachable turns w r, scan_for_timeouts-Reachable scans w r, r, r)
