-- ===== src/Api/Mux/Segments.antt =====
-- Ids that stand in a path as one segment, as the uuids of the engine do, and the paths made of
-- them.
use Prim.Native.String.{◌++◌ as ◌+++◌}
use text.Mathlib.TextLemmas.{nil-append, append-nil}
use flowscale.Prelude.{◌≡◌, refl, ◌≢◌, String, List, [], ◌∷◌, true, false, ◌==◌}
use flowscale.Strings.{split}
use flowscale.Strings.Laws.{==-false}
use flowscale.Strings.Splits.{NoChar, split-NoChar, split-weld, weld}
use flowscale.Api.Mux.{is_clean, clean_parts}

-- Not empty, not a dot segment, and without the characters that have a meaning in a URL.
pub record IsSegment (id : String) : Type 0 where
  pub filled : id ≢ ""
  pub no_dot : id ≢ "."
  pub no_dots : id ≢ ".."
  pub no_slash : NoChar b'/' id
  pub no_query : NoChar b'?' id
  pub no_fragment : NoChar b'#' id
  pub no_percent : NoChar b'%' id

module _ (id : String) (h : IsSegment id) where
  -- The three tests on the id when a path is cleaned.
  plain : ((id == "") ≡ false) × ((id == ".") ≡ false) × ((id == "..") ≡ false)
  plain = (==-false _ _ h.filled, ==-false _ _ h.no_dot, ==-false _ _ h.no_dots)

  pub split-last : (p : String) → split (p +++ id) b'/' ≡ weld (split p b'/') (id ∷ [])
  split-last p = rw (split-weld b'/' p id, split-NoChar b'/' id h.no_slash) refl

  pub split-inner :
      (p q : String)
      → split (p +++ (id +++ q)) b'/' ≡ weld (split p b'/') (weld (id ∷ []) (split q b'/'))
  split-inner p q =
      rw (split-weld b'/' p (id +++ q), split-weld b'/' id q, split-NoChar b'/' id h.no_slash) refl

  pub is_clean-executions : is_clean ("/executions/" +++ id) ≡ true
  unfolding is_clean split
  is_clean-executions = rw (split-last "/executions/", nil-append, plain.1, plain.2) refl

  pub is_clean-schedules : is_clean ("/schedules/" +++ id) ≡ true
  unfolding is_clean split
  is_clean-schedules = rw (split-last "/schedules/", nil-append, plain.1, plain.2) refl

  pub is_clean-events : is_clean ("/executions/" +++ (id +++ "/events")) ≡ true
  unfolding is_clean split
  is_clean-events =
      rw (split-inner "/executions/" "/events", nil-append, append-nil, plain.0, plain.1, plain.2)
        refl

  pub is_clean-cancel : is_clean ("/executions/" +++ (id +++ "/cancel")) ≡ true
  unfolding is_clean split
  is_clean-cancel =
      rw (split-inner "/executions/" "/cancel", nil-append, append-nil, plain.0, plain.1, plain.2)
        refl

  clean_id :
      (ss : List String) → clean_parts (id ∷ "compensate" ∷ ss) ≡ clean_parts ("compensate" ∷ ss)
  clean_id ss = rw (plain.0, plain.1, plain.2) refl

  split-compensate :
      split ("/executions/" +++ (id +++ "/compensate/retry")) b'/'
      ≡ "" ∷ "executions" ∷ id ∷ "compensate" ∷ "retry" ∷ []
  unfolding split
  split-compensate =
      rw (split-inner "/executions/" "/compensate/retry", nil-append, append-nil) refl

  pub is_clean-compensate : is_clean ("/executions/" +++ (id +++ "/compensate/retry")) ≡ true
  unfolding is_clean
  is_clean-compensate = rw split-compensate (clean_id ("retry" ∷ []))

  pub is_clean-dlq : is_clean ("/activities/dlq/" +++ (id +++ "/retry")) ≡ true
  unfolding is_clean split
  is_clean-dlq =
      rw
        (split-inner "/activities/dlq/" "/retry", nil-append, append-nil, plain.0, plain.1, plain.2)
        refl

  pub is_clean-pause : is_clean ("/schedules/" +++ (id +++ "/pause")) ≡ true
  unfolding is_clean split
  is_clean-pause =
      rw (split-inner "/schedules/" "/pause", nil-append, append-nil, plain.0, plain.1, plain.2)
        refl

  pub is_clean-resume : is_clean ("/schedules/" +++ (id +++ "/resume")) ≡ true
  unfolding is_clean split
  is_clean-resume =
      rw (split-inner "/schedules/" "/resume", nil-append, append-nil, plain.0, plain.1, plain.2)
        refl
