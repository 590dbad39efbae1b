-- ===== src/Api/Calls/Server.antt =====
-- The server as a whole: the routes, the middleware, and the writing calls of a request.
use flowscale.Prelude.{
  ℕ, ◌≤◌, ◌≡◌, refl, inl, inr, Bool-cases, Option, none, some, String, List, [], ◌∷◌, Bool, true,
  false, leb, ltb, not, ◌==◌, ◌&&◌, ◌||◌, arith, if◌then◌else◌, eq_iff,
}
use flowscale.Runtime.{Env, World}
use flowscale.Strings.{has_prefix, cut_suffix}
use flowscale.Api.{Request, Outside, Claims, Handler, stop, asking}
use flowscale.Api.Middleware.{
  rate_limiter, under_depth, backpressure, with_claims, with_token, is_public, auth, cors,
}
use flowscale.Api.Health.{health}
use flowscale.Api.Mux.{
  Route, to_live, to_ready, to_health, to_metrics, to_login, to_executions, to_seed, to_workflows,
  to_dlq, to_schedules, to_demo, routes, exact_route, subtree_route, longer, is_subtree,
  either_route, route_of, metrics_page, dispatch, mux, serve,
}
use flowscale.Api.Calls.{
  Called, Called-refl, Called-weaken, Within, Within-stop, Within-if, Within-asking, within_rules,
}
use flowscale.Api.Calls.Executions.{execution_handler-Within, dlq_handler-Within}
use flowscale.Api.Calls.Handlers.{
  workflow_handler-Within, schedule_handler-Within, auth_handler-Within, demo_handler-Within,
  ready-Within,
}
use flowscale.Api.Calls.Seeding.{seed_handler-Within}

-- How many writing calls a request may make.
unfoldable pub writes_allowed : String → ℕ
writes_allowed path = if path == "/workflows/seed" then 10 else 1

abbrev route_writes : Route → ℕ
route_writes to_seed = 10
route_writes _ = 1

abbrev found_writes : Option Route → ℕ
found_writes none = 1
found_writes (some h) = route_writes h

-- A pattern whose handler may write more is exact, and allows it.
abbrev is_allowed : String × Route → Bool
is_allowed (pattern, h) =
    leb (route_writes h) (writes_allowed pattern)
    && (not (is_subtree pattern) || leb (route_writes h) 1)

abbrev all_allowed : List (String × Route) → Bool
all_allowed [] = true
all_allowed (e ∷ es) = is_allowed e && all_allowed es

one-le : (path : String) → 1 ≤ writes_allowed path
unfolding writes_allowed
one-le path = ground arith

and-true : (b c : Bool) → (b && c) ≡ true → (b ≡ true) × (c ≡ true)
and-true true true h = (refl, refl)
and-true true false h = ground (arith, h)
and-true false c h = ground (arith, h)

leb-le : (m n : ℕ) → leb m n ≡ true → m ≤ n
leb-le m n h = ground (arith, h)

exact-allowed :
    (rs : List (String × Route)) (path : String)
    → all_allowed rs ≡ true
    → found_writes (exact_route rs path) ≤ writes_allowed path
unfolding exact_route
exact-allowed [] path h = one-le path
exact-allowed ((pattern, h) ∷ rs) path a =
    let (here, later) = and-true (is_allowed (pattern, h)) (all_allowed rs) a in
    elim (Bool-cases (path == pattern)) [
      | inl e ↦
          rw (e, (eq_iff path pattern).0 e)
            (leb-le _ _ (and-true (leb (route_writes h) (writes_allowed pattern)) _ here).0)
      | inr e ↦ rw e (exact-allowed rs path later)
    ]

subtree_writes : Option (String × Route) → ℕ
subtree_writes none = 1
subtree_writes (some (p, h)) = route_writes h

longer-writes :
    (p : String) (h : Route) (o : Option (String × Route))
    → route_writes h ≤ 1
    → subtree_writes o ≤ 1
    → subtree_writes (longer p h o) ≤ 1
unfolding subtree_writes
longer-writes p h none k l = k
longer-writes p h (some (q, j)) k l = ground (arith, k, l)

subtree-allowed :
    (rs : List (String × Route)) (path : String)
    → all_allowed rs ≡ true
    → subtree_writes (subtree_route rs path) ≤ 1
unfolding subtree_route subtree_writes
subtree-allowed [] path h = omega arith
subtree-allowed ((pattern, h) ∷ rs) path a =
    let (here, later) = and-true (is_allowed (pattern, h)) (all_allowed rs) a in
    let (_, sub) = and-true (leb (route_writes h) (writes_allowed pattern)) _ here in
    let ih = subtree-allowed rs path later in
    elim (Bool-cases (is_subtree pattern)) [
      | inl e ↦
          let one = leb-le (route_writes h) 1 (ground (arith, sub, e)) in
          elim (Bool-cases (has_prefix path pattern)) [
            | inl p ↦ rw (e, p) (longer-writes pattern h _ one ih)
            | inr p ↦ rw (e, p) ih
          ]
      | inr e ↦ rw e ih
    ]

either-allowed :
    (o : Option Route) (s : Option (String × Route)) (n : ℕ)
    → 1 ≤ n
    → found_writes o ≤ n
    → subtree_writes s ≤ 1
    → found_writes (either_route o s) ≤ n
unfolding subtree_writes
either-allowed (some h) s n one k l = k
either-allowed none none n one k l = one
either-allowed none (some (p, h)) n one k l = omega (arith, one, l)

all_routes : all_allowed routes ≡ true
unfolding routes writes_allowed cut_suffix
all_routes = refl

route_of-allowed : (path : String) → found_writes (route_of path) ≤ writes_allowed path
unfolding route_of
route_of-allowed path =
    either-allowed _ _ _ (one-le path) (exact-allowed routes path all_routes)
      (subtree-allowed routes path all_routes)

module _ (env : Env) (out : Outside) where
  metrics-Within : Within env 1 (metrics_page env out)
  unfolding metrics_page
  metrics-Within = record { at = λ w. Called-refl env 1 w }

  health-Within : Within env 1 (health env)
  unfolding health
  health-Within = ready-Within env out

  dispatch-Within :
      (h : Option Route) (r : Request) → Within env (found_writes h) (dispatch env out h r)
  unfolding dispatch
  dispatch-Within none r = Within-stop _
  dispatch-Within (some to_live) r = Within-stop _
  dispatch-Within (some to_ready) r = ready-Within env out
  dispatch-Within (some to_health) r = health-Within
  dispatch-Within (some to_metrics) r = metrics-Within
  dispatch-Within (some to_login) r = auth_handler-Within env out r
  dispatch-Within (some to_executions) r = execution_handler-Within env out r
  dispatch-Within (some to_seed) r = seed_handler-Within env r
  dispatch-Within (some to_workflows) r = workflow_handler-Within env out r
  dispatch-Within (some to_dlq) r = dlq_handler-Within env out r
  dispatch-Within (some to_schedules) r = schedule_handler-Within env out r
  dispatch-Within (some to_demo) r = demo_handler-Within env out r

  routed-Within :
      (r : Request) → Within env (writes_allowed r.path) (dispatch env out (route_of r.path) r)
  routed-Within r = record {
    at = λ w.
        Called-weaken env _ _ w _ (route_of-allowed r.path)
          ((dispatch-Within (route_of r.path) r).at w);
  }

  mux-Within : (r : Request) → Within env (writes_allowed r.path) (mux env out r)
  unfolding mux
  mux-Within r = search (within_rules, routed-Within) depth 8

  cors-Within : (r : Request) → Within env (writes_allowed r.path) (cors env out (mux env out) r)
  unfolding cors
  cors-Within r = search (within_rules, mux-Within) depth 8

  module _ (next : Handler) (r : Request) (n : ℕ) (k : Within env n (next r)) where
    claims-Within : (o : Option Claims) → Within env n (with_claims env out next r o)
    claims-Within none = Within-stop _
    claims-Within (some claims) = k

    token-Within : (o : Option String) → Within env n (with_token env out next r o)
    token-Within none = Within-stop _
    token-Within (some t) = Within-asking _ _ (λ now. claims-Within _)

    auth-Within : Within env n (auth env out next r)
    unfolding auth
    auth-Within = Within-if (r.method == "OPTIONS" || is_public r.path) (next r) _ k (
        Within-if (r.authorization == "") (stop _) (with_token env out next r _) (Within-stop _)
          (token-Within _))

    depth-Within :
        (threshold : ℕ) (o : Option ℕ) → Within env n (under_depth env out next r threshold o)
    depth-Within threshold none = k
    depth-Within threshold (some depth) =
        Within-if (ltb threshold depth) (stop _) (next r) (Within-stop _) k

    pub backpressure-Within : (threshold : ℕ) → Within env n (backpressure env out threshold next r)
    unfolding backpressure
    backpressure-Within threshold =
        Within-if (r.method == "POST" && r.path == "/workflows/start")
          (asking out.queue_depth (under_depth env out next r threshold)) (next r)
          (Within-asking _ _ (depth-Within threshold)) k

    pub limiter-Within : Within env n (rate_limiter env out next r)
    unfolding rate_limiter
    limiter-Within =
        Within-asking _ _ (λ allowed. Within-if allowed (next r) (stop _) k (Within-stop _))

  serve-Within : (r : Request) → Within env (writes_allowed r.path) (serve env out r)
  unfolding serve
  serve-Within r =
      limiter-Within _ r _ (backpressure-Within _ r _ (auth-Within _ r _ (cors-Within r)) 5000)

-- What a request does to the world, whatever it is and whichever of its queries, writes and
-- messages fail, is a sequence of the calls of `System` with at most one that writes; a request to
-- /workflows/seed may make ten.
pub serve-Called :
    (env : Env) (out : Outside) (r : Request) (w : World)
    → Called env (writes_allowed r.path) w (serve env out r w).1
serve-Called env out r w = (serve-Within env out r).at w
