-- ===== src/Api/Mux/Dispatch.antt =====
-- Which handler takes a path below a subtree of the mux, and when such a path is clean.
use Prim.Native.String.{◌++◌ as ◌+++◌}
use text.Mathlib.TextLemmas.{append-nil, append_cancel_left}
use flowscale.Prelude.{
  ◌≡◌, refl, sym, ap, ◌∙◌, ◌≢◌, inl, inr, Bool-cases, none, some, String, List, [], ◌∷◌, Bool, true,
  false, not, ◌==◌, ◌&&◌, ◌||◌, arith, eq_iff,
}
use flowscale.Strings.{cut_suffix, is_some}
use flowscale.Strings.Laws.{
  never_prefix, never_equal, cut_prefix-never_prefix, cut_prefix-append, ==-never_equal, ==-false,
}
use flowscale.Api.Mux.{
  Route, to_executions, to_dlq, to_schedules, routes, exact_route, subtree_route, is_subtree,
  route_of,
}

abbrev misses : String → String × Route → Bool
misses p (pattern, h) = never_equal p pattern || p == pattern

-- No pattern is a path that goes on behind `p`.
abbrev all_miss : String → List (String × Route) → Bool
all_miss p [] = true
all_miss p (e ∷ es) = misses p e && all_miss p es

misses-false :
    (p x pattern : String)
    → x ≢ ""
    → (never_equal p pattern || p == pattern) ≡ true
    → ((p +++ x) == pattern) ≡ false
misses-false p x pattern ne h = elim (Bool-cases (never_equal p pattern)) [
  | inl e ↦ ==-never_equal p pattern x e
  | inr e ↦
      let same = (eq_iff p pattern).0 (ground (arith, h, e)) in
      ==-false _ _ (λ q. ne (append_cancel_left p x "" (q ∙ sym same ∙ sym (append-nil p))))
]

exact_route-none :
    (rs : List (String × Route)) (p x : String)
    → x ≢ ""
    → all_miss p rs ≡ true
    → exact_route rs (p +++ x) ≡ none
unfolding exact_route
exact_route-none [] p x ne h = refl
exact_route-none ((pattern, r) ∷ rs) p x ne h =
    rw (misses-false p x pattern ne (ground (arith, h)))
      (exact_route-none rs p x ne (ground (arith, h)))

-- The subtrees that a path behind `p` can be in, as far as `p` shows.
abbrev kept_if : Bool → String × Route → List (String × Route) → List (String × Route)
kept_if true e es = e ∷ es
kept_if false e es = es

abbrev open_subtrees : String → List (String × Route) → List (String × Route)
open_subtrees p [] = []
open_subtrees p ((pattern, h) ∷ rs) =
    kept_if (is_subtree pattern && not (never_prefix p pattern)) (pattern, h) (open_subtrees p rs)

subtree_route-open :
    (rs : List (String × Route)) (p x : String)
    → subtree_route rs (p +++ x) ≡ subtree_route (open_subtrees p rs) (p +++ x)
unfolding subtree_route
subtree_route-open [] p x = refl
subtree_route-open ((pattern, h) ∷ rs) p x = elim (Bool-cases (is_subtree pattern)) [
  | inr e ↦ rw e (subtree_route-open rs p x)
  | inl e ↦ elim (Bool-cases (never_prefix p pattern)) [
    | inl n ↦ rw (e, n, cut_prefix-never_prefix p pattern x n) (subtree_route-open rs p x)
    | inr n ↦ rw (e, n, subtree_route-open rs p x, e) refl
  ]
]

-- A path that goes on behind a subtree `p` is routed to its handler, if the table has no pattern
-- further down.
pub route_of-below :
    (p : String) (h : Route) (x : String)
    → x ≢ ""
    → all_miss p routes ≡ true
    → open_subtrees p routes ≡ (p, h) ∷ []
    → is_subtree p ≡ true
    → route_of (p +++ x) ≡ some h
unfolding route_of subtree_route
route_of-below p h x ne m o s =
    rw
      (
        exact_route-none routes p x ne m,
        subtree_route-open routes p x,
        o,
        s,
        ap is_some (cut_prefix-append p x),
      )
      refl

pub below_executions : (x : String) → x ≢ "" → route_of ("/executions/" +++ x) ≡ some to_executions
unfolding routes never_equal never_prefix cut_suffix
below_executions x ne = route_of-below "/executions/" to_executions x ne refl refl refl

pub below_dlq : (x : String) → x ≢ "" → route_of ("/activities/dlq/" +++ x) ≡ some to_dlq
unfolding routes never_equal never_prefix cut_suffix
below_dlq x ne = route_of-below "/activities/dlq/" to_dlq x ne refl refl refl

pub below_schedules : (x : String) → x ≢ "" → route_of ("/schedules/" +++ x) ≡ some to_schedules
unfolding routes never_equal never_prefix cut_suffix
below_schedules x ne = route_of-below "/schedules/" to_schedules x ne refl refl refl
