-- ===== src/Api/Mux/Paths.antt =====
-- The handler and the operation that a path made of an id reaches.
use Prim.Native.Char.{code}
use Prim.Native.String.{[], ◌∷◌, ◌++◌ as ◌+++◌}
use text.Mathlib.TextLemmas.{
  nil-append, append-nil, append_assoc, append_cancel_left, append-eq-nil_iff,
}
use flowscale.Prelude.{
  ◌≡◌, refl, sym, ◌∙◌, ◌≢◌, String, [], ◌∷◌, none, some, Bool, true, false, ◌==◌, arith,
}
use flowscale.Runtime.{Env}
use flowscale.Strings.{eqb, cut_prefix, cut_suffix, split}
use flowscale.Strings.Laws.{
  cut_prefix-append, cut_suffix-append, cut_suffix-clash, ==-never_equal, ==-false, never_equal,
}
use flowscale.Strings.Splits.{cut_suffix-NoChar}
use flowscale.Api.{Request, Outside}
use flowscale.Api.Executions.{
  handle_get, handle_get_events, handle_cancel, handle_retry_compensation, serve_get,
  execution_handler,
}
use flowscale.Api.Mux.{dispatch, mux}
use flowscale.Api.Mux.Segments.{
  IsSegment, split-inner, is_clean-executions, is_clean-schedules, is_clean-events, is_clean-cancel,
  is_clean-compensate, is_clean-dlq, is_clean-pause, is_clean-resume,
}
use flowscale.Api.Mux.Dispatch.{below_executions, below_dlq, below_schedules}
use flowscale.Api.Dlq.{handle_retry, dlq_handler}
use flowscale.Api.Schedules
use flowscale.Api.Schedules.{handle_pause, handle_resume, schedule_handler}

abbrev pub to_path : String → String → Request → Request
to_path method path r = record r { method = method; path = path }

-- The slash in front is trimmed.
cut_slash : (p x : String) → cut_prefix (("/" +++ p) +++ x) "/" ≡ some (p +++ x)
cut_slash p x = rw append_assoc (cut_prefix-append "/" (p +++ x))

longer_than : (p x : String) → x ≢ "" → ((p +++ x) == p) ≡ false
longer_than p x ne = ==-false _ _ (λ e. ne (append_cancel_left p x "" (e ∙ sym (append-nil p))))

filled_append : (s t : String) → s ≢ "" → s +++ t ≢ ""
filled_append s t ne e = ne ((append-eq-nil_iff {p = s} {q = t}).0 e).0

abbrev starts_slash : String → Bool
starts_slash [] = false
starts_slash (c ∷ q) = eqb (code c) b'/'

ends : (p id q : String) → p +++ (id +++ q) ≡ (p +++ id) +++ q
ends p id q = sym (append_assoc p id q)

module _ (env : Env) (out : Outside) (r : Request) (id : String) (h : IsSegment id) where
  no_suffix : (q : String) → starts_slash q ≡ true → cut_suffix id q ≡ none
  no_suffix [] e = ground (arith, e)
  no_suffix (c ∷ q) e = cut_suffix-NoChar b'/' id c q h.no_slash e

  pub get_path :
      execution_handler env out (to_path "GET" ("/executions/" +++ id) r) ≡ handle_get env out id
  unfolding execution_handler serve_get never_equal
  get_path =
      rw
        (
          cut_slash "executions/" id,
          ==-never_equal "executions/" "executions" id refl,
          cut_prefix-append "executions/" id,
          longer_than "executions/" id h.filled,
          ==-false id "" h.filled,
          no_suffix "/events" refl,
        )
        refl

  pub events_path :
      execution_handler env out (to_path "GET" ("/executions/" +++ (id +++ "/events")) r)
      ≡ handle_get_events env out id
  unfolding execution_handler serve_get never_equal
  events_path =
      rw
        (
          cut_slash "executions/" (id +++ "/events"),
          ==-never_equal "executions/" "executions" (id +++ "/events") refl,
          cut_prefix-append "executions/" (id +++ "/events"),
          longer_than "executions/" (id +++ "/events") (filled_append id "/events" h.filled),
          ==-false (id +++ "/events") "" (filled_append id "/events" h.filled),
          cut_suffix-append id "/events",
        )
        refl

  pub cancel_path :
      execution_handler env out (to_path "POST" ("/executions/" +++ (id +++ "/cancel")) r)
      ≡ handle_cancel env out id
  unfolding execution_handler never_equal cut_suffix
  cancel_path =
      rw
        (
          cut_slash "executions/" (id +++ "/cancel"),
          ==-never_equal "executions/" "workflows/start" (id +++ "/cancel") refl,
          cut_prefix-append "executions/" (id +++ "/cancel"),
          ends "executions/" id "/cancel",
          (cut_suffix-clash ("executions/" +++ id) "/cancel" "/compensate/retry" refl refl),
          cut_suffix-append ("executions/" +++ id) "/cancel",
          cut_suffix-append id "/cancel",
        )
        refl

  pub compensate_path :
      execution_handler env out (to_path "POST" ("/executions/" +++ (id +++ "/compensate/retry")) r)
      ≡ handle_retry_compensation env out id
  unfolding execution_handler never_equal
  compensate_path =
      rw
        (
          cut_slash "executions/" (id +++ "/compensate/retry"),
          ==-never_equal "executions/" "workflows/start" (id +++ "/compensate/retry") refl,
          cut_prefix-append "executions/" (id +++ "/compensate/retry"),
          ends "executions/" id "/compensate/retry",
          cut_suffix-append ("executions/" +++ id) "/compensate/retry",
          cut_suffix-append id "/compensate/retry",
        )
        refl

  split-dlq :
      split ("activities/dlq/" +++ (id +++ "/retry")) b'/'
      ≡ "activities" ∷ "dlq" ∷ id ∷ "retry" ∷ []
  unfolding split
  split-dlq = rw (split-inner id h "activities/dlq/" "/retry", nil-append, append-nil) refl

  pub dlq_path :
      dlq_handler env (to_path "POST" ("/activities/dlq/" +++ (id +++ "/retry")) r)
      ≡ handle_retry env id
  unfolding dlq_handler
  dlq_path =
      rw
        (
          cut_slash "activities/dlq/" (id +++ "/retry"),
          cut_prefix-append "activities/dlq/" (id +++ "/retry"),
          split-dlq,
          ends "activities/dlq/" id "/retry",
          cut_suffix-append ("activities/dlq/" +++ id) "/retry",
        )
        refl

  pub delete_path :
      schedule_handler env out (to_path "DELETE" ("/schedules/" +++ id) r)
      ≡ Schedules.handle_delete env out id
  unfolding schedule_handler
  delete_path = rw (cut_slash "schedules/" id, cut_prefix-append "schedules/" id) refl

  pub pause_path :
      schedule_handler env out (to_path "POST" ("/schedules/" +++ (id +++ "/pause")) r)
      ≡ handle_pause env out id
  unfolding schedule_handler never_equal
  pause_path =
      rw
        (
          cut_slash "schedules/" (id +++ "/pause"),
          ==-never_equal "schedules/" "schedules" (id +++ "/pause") refl,
          cut_prefix-append "schedules/" (id +++ "/pause"),
          ends "schedules/" id "/pause",
          cut_suffix-append ("schedules/" +++ id) "/pause",
          cut_suffix-append id "/pause",
        )
        refl

  pub resume_path :
      schedule_handler env out (to_path "POST" ("/schedules/" +++ (id +++ "/resume")) r)
      ≡ handle_resume env out id
  unfolding schedule_handler never_equal cut_suffix
  resume_path =
      rw
        (
          cut_slash "schedules/" (id +++ "/resume"),
          ==-never_equal "schedules/" "schedules" (id +++ "/resume") refl,
          cut_prefix-append "schedules/" (id +++ "/resume"),
          ends "schedules/" id "/resume",
          cut_suffix-clash ("schedules/" +++ id) "/resume" "/pause" refl refl,
          cut_suffix-append ("schedules/" +++ id) "/resume",
          cut_suffix-append id "/resume",
        )
        refl

  pub mux-get : mux env out (to_path "GET" ("/executions/" +++ id) r) ≡ handle_get env out id
  unfolding mux dispatch
  mux-get = rw (is_clean-executions id h, below_executions id h.filled) get_path

  pub mux-events :
      mux env out (to_path "GET" ("/executions/" +++ (id +++ "/events")) r)
      ≡ handle_get_events env out id
  unfolding mux dispatch
  mux-events =
      rw (is_clean-events id h, below_executions _ (filled_append id "/events" h.filled))
        events_path

  pub mux-cancel :
      mux env out (to_path "POST" ("/executions/" +++ (id +++ "/cancel")) r)
      ≡ handle_cancel env out id
  unfolding mux dispatch
  mux-cancel =
      rw (is_clean-cancel id h, below_executions _ (filled_append id "/cancel" h.filled))
        cancel_path

  pub mux-compensate :
      mux env out (to_path "POST" ("/executions/" +++ (id +++ "/compensate/retry")) r)
      ≡ handle_retry_compensation env out id
  unfolding mux dispatch
  mux-compensate =
      rw
        (
          is_clean-compensate id h,
          below_executions _ (filled_append id "/compensate/retry" h.filled),
        )
        compensate_path

  pub mux-dlq :
      mux env out (to_path "POST" ("/activities/dlq/" +++ (id +++ "/retry")) r)
      ≡ handle_retry env id
  unfolding mux dispatch
  mux-dlq = rw (is_clean-dlq id h, below_dlq _ (filled_append id "/retry" h.filled)) dlq_path

  pub mux-delete :
      mux env out (to_path "DELETE" ("/schedules/" +++ id) r) ≡ Schedules.handle_delete env out id
  unfolding mux dispatch
  mux-delete = rw (is_clean-schedules id h, below_schedules id h.filled) delete_path

  pub mux-pause :
      mux env out (to_path "POST" ("/schedules/" +++ (id +++ "/pause")) r) ≡ handle_pause env out id
  unfolding mux dispatch
  mux-pause =
      rw (is_clean-pause id h, below_schedules _ (filled_append id "/pause" h.filled)) pause_path

  pub mux-resume :
      mux env out (to_path "POST" ("/schedules/" +++ (id +++ "/resume")) r)
      ≡ handle_resume env out id
  unfolding mux dispatch
  mux-resume =
      rw (is_clean-resume id h, below_schedules _ (filled_append id "/resume" h.filled)) resume_path
