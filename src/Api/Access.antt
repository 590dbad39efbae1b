-- ===== src/Api/Access.antt =====
-- What a request without a token can do.
use flowscale.Prelude.{
  ℕ, ◌≤◌, ◌≡◌, refl, ◌⊎◌, subst, ◌+◌, inl, inr, Bool-cases, Option, none, some, String, List, [],
  ◌∷◌, Bool, true, false, ◌==◌, ◌||◌, arith, eq_iff,
}
use flowscale.Strings.{cut_prefix, cut_suffix}
use flowscale.Runtime.{Env, World, tick}
use flowscale.System.{Call, on_ask, perform}
use flowscale.Api.{Request, Outside, Handler, respond, no_body, stop}
use flowscale.Api.Middleware.{bearer, is_public, backpressure, with_token, auth, cors}
use flowscale.Api.Mux.{
  route_of, dispatch, mux, serve, metrics_page, is_clean, routes, to_login, to_live, to_ready,
  to_metrics,
}
use flowscale.Api.Calls.{
  Called, Called-refl, writes, perform_all, Within, Within-stop, Within-if, Within-asking,
}
use flowscale.Api.Calls.Handlers.{auth_handler-Within, ready-Within}
use flowscale.Api.Calls.Server.{backpressure-Within, limiter-Within}

-- All but the count of questions to the outside is as before.
pub record Untouched (w w' : World) : Type 0 where
  pub db : w'.db ≡ w.db
  pub broker : w'.broker ≡ w.broker
  pub locks : w'.locks ≡ w.locks
  pub metrics : w'.metrics ≡ w.metrics
  pub shipment_down : w'.shipment_down ≡ w.shipment_down

abbrev pub untouched_refl : (w : World) → Untouched w w
untouched_refl w = record {
  db = refl;
  broker = refl;
  locks = refl;
  metrics = refl;
  shipment_down = refl;
}

too_many : (n : ℕ) → 1 + n ≤ 0 → ⊥
too_many n h = omega (arith, h)

unwritten :
    (env : Env) (cs : List Call) (w : World) → writes cs ≤ 0 → Untouched w (perform_all env cs w)
unfolding writes perform_all perform
unwritten env [] w h = untouched_refl w
unwritten env (on_ask ∷ cs) w h =
    let u = unwritten env cs (tick w) (omega (arith, h)) in
    record {
      db = u.db;
      broker = u.broker;
      locks = u.locks;
      metrics = u.metrics;
      shipment_down = u.shipment_down;
    }
unwritten env (c ∷ cs) w h = elim (too_many (writes cs) h) [ ]

pub Called-Untouched : (env : Env) (w w' : World) → Called env 0 w w' → Untouched w w'
Called-Untouched env w w' c = subst (Untouched w) c.same (unwritten env c.calls w c.few)

-- The header holds no token that is accepted at any time.
pub record HasNoToken (out : Outside) (r : Request) : Type 0 where
  pub refused :
      (t : String) (now : ℕ) → bearer r.authorization ≡ some t → out.parse_token t now ≡ none

or-true : (b c : Bool) → (b || c) ≡ true → (b ≡ true) ⊎ (c ≡ true)
or-true true c h = inl refl
or-true false c h = inr h

-- The public paths.
pub IsPublic-cases :
    (path : String)
    → is_public path ≡ true
    → (path ≡ "/api/auth/login") ⊎ (path ≡ "/live") ⊎ (path ≡ "/ready") ⊎ (path ≡ "/metrics")
unfolding is_public
IsPublic-cases path h = elim (or-true _ _ h) [
  | inl h₁ ↦ elim (or-true _ _ h₁) [
    | inl h₂ ↦ elim (or-true _ _ h₂) [
      | inl e ↦ inl ((eq_iff path "/api/auth/login").0 e)
      | inr e ↦ inr (inl ((eq_iff path "/live").0 e))
    ]
    | inr e ↦ inr (inr (inl ((eq_iff path "/ready").0 e)))
  ]
  | inr e ↦ inr (inr (inr ((eq_iff path "/metrics").0 e)))
]

public_routes :
    (route_of "/api/auth/login" ≡ some to_login)
    × (route_of "/live" ≡ some to_live)
    × (route_of "/ready" ≡ some to_ready)
    × (route_of "/metrics" ≡ some to_metrics)
unfolding route_of routes cut_suffix cut_prefix
public_routes = (refl, refl, refl, refl)

public-Within :
    (env : Env) (out : Outside) (r : Request) (path : String)
    → is_public path ≡ true
    → Within env 0 (dispatch env out (route_of path) r)
unfolding dispatch metrics_page
public-Within env out r path h = elim (IsPublic-cases path h) [
  | inl e ↦ rw (e, public_routes.0) (auth_handler-Within env out r)
  | inr (inl e) ↦ rw (e, public_routes.1) (Within-stop _)
  | inr (inr (inl e)) ↦ rw (e, public_routes.2) (ready-Within env out)
  | inr (inr (inr e)) ↦ rw (e, public_routes.3) (record { at = λ w. Called-refl env 0 w })
]

module _ (env : Env) (out : Outside) (r : Request) (h : HasNoToken out r) where
  token-Within :
      (next : Handler) (o : Option String)
      → bearer r.authorization ≡ o
      → Within env 0 (with_token env out next r o)
  token-Within next none e = Within-stop _
  token-Within next (some t) e = Within-asking _ _ (λ now. rw (h.refused t now e) (Within-stop _))

  answered-Within : is_public r.path ≡ true → Within env 0 (cors env out (mux env out) r)
  unfolding cors mux
  answered-Within p =
      Within-if (r.method == "OPTIONS") (stop (respond 200 no_body)) _ (Within-stop _) (
        Within-if (r.method == "CONNECT" || is_clean r.path) (dispatch env out (route_of r.path) r)
          (stop (respond 301 no_body)) (public-Within env out r r.path p) (Within-stop _))

  options-Within : (r.method == "OPTIONS") ≡ true → Within env 0 (cors env out (mux env out) r)
  unfolding cors
  options-Within e = rw e (Within-stop _)

  auth-Within : Within env 0 (auth env out (cors env out (mux env out)) r)
  unfolding auth
  auth-Within = elim (Bool-cases (r.method == "OPTIONS")) [
    | inl e ↦ rw e (options-Within e)
    | inr e ↦ elim (Bool-cases (is_public r.path)) [
      | inl p ↦ rw (e, p) (answered-Within p)
      | inr p ↦
          rw (e, p)
            (Within-if (r.authorization == "") (stop _)
              (with_token env out (cors env out (mux env out)) r (bearer r.authorization))
              (Within-stop _)
              (token-Within (cors env out (mux env out)) (bearer r.authorization) refl))
    ]
  ]

  serve-Within : Within env 0 (serve env out r)
  unfolding serve
  serve-Within =
      limiter-Within env out (backpressure env out 5000 (auth env out (cors env out (mux env out))))
        r 0
        (backpressure-Within env out (auth env out (cors env out (mux env out))) r 0 auth-Within
          5000)

-- A request without a token that is accepted changes no table, sends no message, takes no lock and
-- does not touch the demo's file, whatever its method, path and body.
pub serve-Untouched :
    (env : Env) (out : Outside) (r : Request) (w : World)
    → HasNoToken out r
    → Untouched w (serve env out r w).1
serve-Untouched env out r w h = Called-Untouched env w _ ((serve-Within env out r h).at w)
