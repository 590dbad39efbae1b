-- ===== src/Api/Mux.antt =====
-- The routes of cmd/engine/main.go and the chain of middleware around them, for a process that has
-- the role "api". `http.ServeMux` is modelled as net/http documents it: a pattern that ends in "/"
-- takes every path below it, the longest pattern that fits wins, and a path that is not clean is
-- redirected.
pub mod Dispatch
pub mod Paths
pub mod Segments
use flowscale.Prelude.{
  ℕ, String, List, [], ◌∷◌, Option, none, some, Bool, true, false, length, ltb, not, ◌==◌, ◌&&◌,
  ◌||◌, if◌then◌else◌,
}
use flowscale.Strings.{split, has_prefix, has_suffix}
use flowscale.Runtime.{Env}
use flowscale.Api.{Request, Outside, no_body, text, respond, not_found, Handler, Serving, stop}
use flowscale.Api.Executions.{execution_handler}
use flowscale.Api.Dlq.{dlq_handler}
use flowscale.Api.Workflows.{workflow_handler}
use flowscale.Api.Schedules.{schedule_handler}
use flowscale.Api.Auth.{auth_handler}
use flowscale.Api.Seed.{seed_handler}
use flowscale.Api.Demo.{demo_handler}
use flowscale.Api.Health.{live, ready, health}
use flowscale.Api.Middleware.{rate_limiter, backpressure, auth, cors}

pub data Route : Type 0 where
  to_live to_ready to_health to_metrics to_login to_executions to_seed to_workflows : Route
  to_dlq to_schedules to_demo : Route

-- The patterns in the order in which they are registered.
unfoldable pub routes : List (String × Route)
routes =
    ("/live", to_live)
    ∷ ("/ready", to_ready)
    ∷ ("/health", to_health)
    ∷ ("/metrics", to_metrics)
    ∷ ("/api/auth/login", to_login)
    ∷ ("/executions", to_executions)
    ∷ ("/executions/", to_executions)
    ∷ ("/workflows/start", to_executions)
    ∷ ("/workflows/seed", to_seed)
    ∷ ("/workflows", to_workflows)
    ∷ ("/workflows/", to_workflows)
    ∷ ("/activities/dlq", to_dlq)
    ∷ ("/activities/dlq/", to_dlq)
    ∷ ("/schedules", to_schedules)
    ∷ ("/schedules/", to_schedules)
    ∷ ("/demo/shipment-status", to_demo)
    ∷ []

-- The patterns that fit a path; an exact one is longer than every subtree that the path is in.
unfoldable pub exact_route : List (String × Route) → String → Option Route
exact_route [] path = none
exact_route ((pattern, h) ∷ rs) path =
    let rest = exact_route rs path in if path == pattern then some h else rest

abbrev pub is_subtree : String → Bool
is_subtree pattern = has_suffix pattern "/"

abbrev pub longer : String → Route → Option (String × Route) → Option (String × Route)
longer p h none = some (p, h)
longer p h (some (q, k)) = if has_prefix q p then some (q, k) else some (p, h)

-- The longest of two subtrees that hold the same path has the other as a prefix.
unfoldable pub subtree_route : List (String × Route) → String → Option (String × Route)
subtree_route [] path = none
subtree_route ((pattern, h) ∷ rs) path =
    let rest = subtree_route rs path in
    if is_subtree pattern && has_prefix path pattern then longer pattern h rest else rest

abbrev pub either_route : Option Route → Option (String × Route) → Option Route
either_route (some h) o = some h
either_route none none = none
either_route none (some (p, h)) = some h

unfoldable pub route_of : String → Option Route
unfolding routes exact_route subtree_route
route_of path = either_route (exact_route routes path) (subtree_route routes path)

abbrev is_dots : String → Bool
is_dots s = s == "." || s == ".."

-- path.Clean changes nothing: no empty part but the last, no "." and no "..".
abbrev pub clean_parts : List String → Bool
clean_parts [] = true
clean_parts (s ∷ []) = not (is_dots s)
clean_parts (s ∷ ss) = not (s == "") && not (is_dots s) && clean_parts ss

abbrev clean_from_root : List String → Bool
clean_from_root (root ∷ s ∷ ss) = root == "" && clean_parts (s ∷ ss)
clean_from_root _ = false

unfoldable pub is_clean : String → Bool
unfolding split
is_clean path = clean_from_root (split path b'/')

module _ (env : Env) (out : Outside) where
  unfoldable pub metrics_page : Serving
  metrics_page w = (respond 200 (text (out.metrics_page w.metrics)), w)

  unfoldable pub dispatch : Option Route → Request → Serving
  dispatch none r = stop not_found
  dispatch (some to_live) r = live
  dispatch (some to_ready) r = ready env
  dispatch (some to_health) r = health env
  dispatch (some to_metrics) r = metrics_page
  dispatch (some to_login) r = auth_handler env out r
  dispatch (some to_executions) r = execution_handler env out r
  dispatch (some to_seed) r = seed_handler env r
  dispatch (some to_workflows) r = workflow_handler env out r
  dispatch (some to_dlq) r = dlq_handler env r
  dispatch (some to_schedules) r = schedule_handler env out r
  dispatch (some to_demo) r = demo_handler out r

  unfoldable pub mux : Handler
  mux r =
      if r.method == "CONNECT" || is_clean r.path
      then dispatch (route_of r.path) r
      else stop (respond 301 no_body)

  -- The handler of the server: the rate limiter is outermost, the mux innermost.
  unfoldable pub serve : Handler
  serve = rate_limiter env out (backpressure env out 5000 (auth env out (cors env out mux)))
