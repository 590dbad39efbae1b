-- ===== src/Tui/Loads/Widths.antt =====
-- The rows that are loaded fit the columns of their view; and what the seeding key does.
use mathlib.Core.Option
use flowscale.Prelude.Predicates.{All}
use flowscale.Prelude.{
  ◌≡◌, refl, subst, ◌∙◌, ℕ, String, Option, none, some, List, [], ◌∷◌, map, length, inl, inr,
  Bool-cases, arith,
}
use flowscale.Runtime.{Env, World, tick}
use flowscale.Api.{Handler, Outside, Request}
use flowscale.Api.Mux.{serve}
use flowscale.Api.Middleware.{bearer}
use flowscale.Api.Access.{HasNoToken, Untouched, untouched_refl, serve-Untouched}
use flowscale.Client.{
  Link, Client, Outcome, done, api_error, failed, do_request, new_request, exchange, sent, nothing,
}
use flowscale.Client.{with_path}
use flowscale.Tui.{
  ViewState, view_executions, view_workflows, view_dlq, view_compensation, view_schedules,
  view_detail, columns_for, Row, loaded,
}
use flowscale.Tui.Loads.{shown, load_view, load_data, seed}

-- A row with one cell for each column of the view.
abbrev pub FitsView : ViewState → Row → Type 0
FitsView s row = Option.map length (columns_for s) ≡ some (length row)

map-All :
    {A : Type 0} (P : Row → Type 0) (f : A → Row) (xs : List A)
    → ((a : A) → P (f a))
    → All P (map f xs)
map-All P f [] k = tt
map-All P f (x ∷ xs) k = (k x, map-All P f xs k)

some-injective : {A : Type 0} {a b : A} → ◌≡◌ {A = Option A} (some a) (some b) → a ≡ b
some-injective e = ground (arith, e)

loaded-injective :
    (s s' : ViewState) (rows rows' : List Row) (d d' : String)
    → loaded s rows d ≡ loaded s' rows' d'
    → (s' ≡ s) × (rows ≡ rows')
loaded-injective s s' rows rows' d d' e = ground (arith, e)

shown-fits :
    {A : Type 0} (s s' : ViewState) (row : A → Row) (p : Outcome (List A) × World) (rows : List Row)
    (d : String)
    → ((a : A) → FitsView s (row a))
    → (shown s row p).0 ≡ some (loaded s' rows d)
    → (s' ≡ s) × All (FitsView s) rows
shown-fits s s' row (done xs, w) rows d k e =
    let (same, eq) = loaded-injective s s' (map row xs) rows "" d (some-injective e) in
    (same, subst (All (FitsView s)) eq (map-All (FitsView s) row xs k))
shown-fits s s' row (api_error n b, w) rows d k e = ground (arith, e)
shown-fits s s' row (failed, w) rows d k e = ground (arith, e)

-- What is loaded for a view, whatever the server answers, is for that view, and each of its rows has
-- one cell for each of the columns of the view.
pub load_data-fits :
    (link : Link) (server : Handler) (c : Client) (clock : ℕ → String) (s s' : ViewState)
    (status workflow range : String) (w : World) (rows : List Row) (d : String)
    → (load_data link server c clock s status workflow range w).0 ≡ some (loaded s' rows d)
    → (s' ≡ s) × All (FitsView s) rows
unfolding load_data load_view columns_for
load_data-fits link server c clock view_executions s' status workflow range w rows d e =
    shown-fits view_executions s' _ _ rows d (λ a. refl) e
load_data-fits link server c clock view_workflows s' status workflow range w rows d e =
    shown-fits view_workflows s' _ _ rows d (λ a. refl) e
load_data-fits link server c clock view_dlq s' status workflow range w rows d e =
    shown-fits view_dlq s' _ _ rows d (λ a. refl) e
load_data-fits link server c clock view_compensation s' status workflow range w rows d e =
    shown-fits view_compensation s' _ _ rows d (λ a. refl) e
load_data-fits link server c clock view_schedules s' status workflow range w rows d e =
    shown-fits view_schedules s' _ _ rows d (λ a. refl) e
load_data-fits link server c clock view_detail s' status workflow range w rows d e =
    ground (arith, e)

no_bearer : bearer "" ≡ none
unfolding bearer
no_bearer = refl

untouched_trans : (a b c : World) → Untouched a b → Untouched b c → Untouched a c
untouched_trans a b c u v = record {
  db = v.db ∙ u.db;
  broker = v.broker ∙ u.broker;
  locks = v.locks ∙ u.locks;
  metrics = v.metrics ∙ u.metrics;
  shipment_down = v.shipment_down ∙ u.shipment_down;
}

tick-Untouched : (w : World) → Untouched w (tick w)
tick-Untouched w = record {
  db = refl;
  broker = refl;
  locks = refl;
  metrics = refl;
  shipment_down = refl;
}

bare-HasNoToken : (out : Outside) (r : Request) → r.authorization ≡ "" → HasNoToken out r
bare-HasNoToken out r a = record {
  refused = λ t now e. ground (arith, no_bearer, subst (λ x. bearer x ≡ some t) a e);
}

module _ (env : Env) (out : Outside) (link : Link) where
  sent-Untouched :
      (o : Option Request) (w : World)
      → ((r : Request) → o ≡ some r → r.authorization ≡ "")
      → Untouched w (sent link (serve env out) nothing o w).1
  unfolding exchange
  sent-Untouched none w k = untouched_refl w
  sent-Untouched (some r) w k = elim (Bool-cases (link.loses_request w.calls)) [
    | inl l ↦ rw l (tick-Untouched w)
    | inr l ↦
        let still = serve-Untouched env out r (tick w) (bare-HasNoToken out r (k r refl)) in
        rw l (
          untouched_trans w (tick w) _ (tick-Untouched w)
            (untouched_trans _ _ _ still (tick-Untouched _)))
  ]

bare_path :
    (c : Client) (method body query : String) (o : Option String) (r : Request)
    → with_path (record c { token = "" }) method body query o ≡ some r
    → r.authorization ≡ ""
bare_path c method body query none r e = ground (arith, e)
bare_path c method body query (some path) r e = ground (arith, e)

-- The key g of the terminal interface seeds nothing: whatever token the client has, its request
-- leaves every table, message and lock of the server as it was.
pub seed-Untouched :
    (env : Env) (out : Outside) (link : Link) (c : Client) (clock : ℕ → String) (w : World)
    → Untouched w (seed link (serve env out) c clock w)
unfolding seed do_request new_request
seed-Untouched env out link c clock w =
    sent-Untouched env out link _ w (λ r e. bare_path c "POST" "" _ _ r e)
