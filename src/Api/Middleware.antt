-- ===== src/Api/Middleware.antt =====
-- internal/api/middleware.go: each wraps the handler that comes next. The claims that
-- AuthMiddleware puts into the request's context are read by no handler.
use flowscale.Prelude.{
  ℕ, String, List, [], ◌∷◌, Option, none, some, Bool, ltb, ◌==◌, ◌&&◌, ◌||◌, if◌then◌else◌,
}
use flowscale.Strings.{split, lowers_to}
use flowscale.Runtime.{Env}
use flowscale.Api.{Request, Outside, Claims, no_body, text, respond, Handler, Serving, stop, asking}

-- The token of "Bearer <token>": two parts, the first in letters of either case.
abbrev token_of : List String → Option String
token_of (scheme ∷ t ∷ []) = if lowers_to scheme "bearer" then some t else none
token_of _ = none

unfoldable pub bearer : String → Option String
unfolding split lowers_to
bearer header = token_of (split header b' ')

-- The paths that need no token.
unfoldable pub is_public : String → Bool
is_public path =
    path == "/api/auth/login" || path == "/live" || path == "/ready" || path == "/metrics"

module _ (env : Env) (out : Outside) where
  unfoldable pub rate_limiter : Handler → Handler
  rate_limiter next r =
      asking out.limiter_allows
        λ allowed. if allowed then next r else stop (respond 429 (text "Too Many Requests"))

  -- A queue that cannot be inspected lets the request pass.
  abbrev pub under_depth : Handler → Request → ℕ → Option ℕ → Serving
  under_depth next r threshold none = next r
  under_depth next r threshold (some depth) =
      if ltb threshold depth
      then stop (respond 503 (text "Service Unavailable - System Overloaded"))
      else next r

  unfoldable pub backpressure : ℕ → Handler → Handler
  backpressure threshold next r =
      if r.method == "POST" && r.path == "/workflows/start"
      then asking out.queue_depth (under_depth next r threshold)
      else next r

  abbrev pub with_claims : Handler → Request → Option Claims → Serving
  with_claims next r none = stop (respond 401 (text "invalid or expired token"))
  with_claims next r (some claims) = next r

  abbrev pub with_token : Handler → Request → Option String → Serving
  with_token next r none = stop (respond 401 (text "invalid authorization header"))
  with_token next r (some t) = asking env.now λ now. with_claims next r (out.parse_token t now)

  unfoldable pub auth : Handler → Handler
  auth next r =
      if r.method == "OPTIONS" || is_public r.path
      then next r
      else if r.authorization == ""
      then stop (respond 401 (text "missing authorization header"))
      else with_token next r (bearer r.authorization)

  unfoldable pub cors : Handler → Handler
  cors next r = if r.method == "OPTIONS" then stop (respond 200 no_body) else next r
