-- ===== src/Client/Routes.antt =====
-- Client and server together: which handler answers each call of the client.
use Prim.Native.Char.{code}
use Prim.Native.String.{[], ◌∷◌, ◌++◌}
use flowscale.Prelude.{ℕ, ◌≡◌, refl, ap, String, Option, some, Bool, true, not, ◌&&◌, arith}
use flowscale.Runtime.{Env}
use flowscale.Strings.{eqb}
use flowscale.Strings.Splits.{NoChar, NoChar-append, before-NoChar, behind-NoChar}
use flowscale.Api.{Request, Body, Outside, Handler, Serving}
use flowscale.Api.Executions
use flowscale.Api.Executions.{handle_get_events, handle_cancel, handle_retry_compensation}
use flowscale.Api.Dlq.{handle_retry}
use flowscale.Api.Schedules
use flowscale.Api.Schedules.{handle_pause, handle_resume}
use flowscale.Api.Mux.{mux}
use flowscale.Api.Mux.Segments.{IsSegment}
use flowscale.Api.Mux.Paths.{
  to_path, mux-get, mux-events, mux-cancel, mux-compensate, mux-dlq, mux-delete, mux-pause,
  mux-resume,
}
use flowscale.Client.{
  Link, Client, authorization_of, new_request, exchange, do_request, nothing, as_execution,
  as_events, get_execution, get_execution_events, cancel_execution, retry_compensation, retry_dlq,
  delete_schedule, pause_schedule, resume_schedule,
}

-- net/url leaves a path without a percent sign as it is.
pub record UnescapesPlain (link : Link) : Type 0 where
  pub plain : (s : String) → NoChar b'%' s → link.unescape_path s ≡ some s

-- A text that a URL takes as a path.
record IsPath (s : String) : Type 0 where
  no_query : NoChar b'?' s
  no_fragment : NoChar b'#' s
  no_percent : NoChar b'%' s

abbrev lacks : ℕ → String → Bool
lacks sep [] = true
lacks sep (c ∷ s) = not (eqb (code c) sep) && lacks sep s

lacks-NoChar : (sep : ℕ) (s : String) → lacks sep s ≡ true → NoChar sep s
lacks-NoChar sep [] h = tt
lacks-NoChar sep (c ∷ s) h = (ground (arith, h), lacks-NoChar sep s (ground (arith, h)))

abbrev is_plain : String → Bool
is_plain s = lacks b'?' s && lacks b'#' s && lacks b'%' s

is_plain-IsPath : (s : String) → is_plain s ≡ true → IsPath s
is_plain-IsPath s h = record {
  no_query = lacks-NoChar b'?' s (ground (arith, h));
  no_fragment = lacks-NoChar b'#' s (ground (arith, h));
  no_percent = lacks-NoChar b'%' s (ground (arith, h));
}

IsPath-append : (s t : String) → IsPath s → IsPath t → IsPath (s ++ t)
IsPath-append s t h k = record {
  no_query = NoChar-append _ s t h.no_query k.no_query;
  no_fragment = NoChar-append _ s t h.no_fragment k.no_fragment;
  no_percent = NoChar-append _ s t h.no_percent k.no_percent;
}

IsSegment-IsPath : (id : String) → IsSegment id → IsPath id
IsSegment-IsPath id h = record {
  no_query = h.no_query;
  no_fragment = h.no_fragment;
  no_percent = h.no_percent;
}

between-IsPath :
    (p id q : String)
    → is_plain p ≡ true
    → is_plain q ≡ true
    → IsSegment id
    → IsPath (p ++ (id ++ q))
between-IsPath p id q hp hq h =
    IsPath-append p (id ++ q) (is_plain-IsPath p hp)
      (IsPath-append id q (IsSegment-IsPath id h) (is_plain-IsPath q hq))

below-IsPath : (p id : String) → is_plain p ≡ true → IsSegment id → IsPath (p ++ id)
below-IsPath p id hp h = IsPath-append p id (is_plain-IsPath p hp) (IsSegment-IsPath id h)

abbrev outgoing : Client → String → Request
outgoing c body = record {
  method = "";
  path = "";
  query = "";
  authorization = authorization_of c;
  body = body;
}

new_request-path :
    (link : Link) (c : Client) (method target body : String)
    → UnescapesPlain link
    → IsPath target
    → new_request link c method target body ≡ some (to_path method target (outgoing c body))
unfolding new_request
new_request-path link c method target body u h =
    rw
      (
        before-NoChar b'#' target h.no_fragment,
        before-NoChar b'?' target h.no_query,
        behind-NoChar b'?' target h.no_query,
        u.plain target h.no_percent,
      )
      refl

module _ (link : Link) (server : Handler) (c : Client) (u : UnescapesPlain link) where
  do_request-served :
      {A : Type 0} (method target body : String) (out : Body → Option A) (f : Serving)
      → IsPath target
      → server (to_path method target (outgoing c body)) ≡ f
      → do_request link server c method target body out ≡ exchange link out f
  unfolding do_request
  do_request-served method target body out f h e =
      rw (new_request-path link c method target body u h) (ap (exchange link out) e)

-- Every method of the client that names an id in its path gets the response of the handler that is
-- meant for it, with that id, for each id that is one segment of a path, as uuids are, if net/url
-- leaves plain paths as they are: GetExecution, GetExecutionEvents, CancelExecution,
-- RetryCompensation, RetryDLQ, DeleteSchedule, PauseSchedule and ResumeSchedule.
pub client-mux :
    (env : Env) (out : Outside) (link : Link) (c : Client) (id : String)
    → UnescapesPlain link
    → IsSegment id
    → (get_execution link (mux env out) c id
        ≡ exchange link as_execution (Executions.handle_get env out id))
      × (get_execution_events link (mux env out) c id
          ≡ exchange link as_events (handle_get_events env out id))
      × (cancel_execution link (mux env out) c id
          ≡ exchange link nothing (handle_cancel env out id))
      × (retry_compensation link (mux env out) c id
          ≡ exchange link nothing (handle_retry_compensation env out id))
      × (retry_dlq link (mux env out) c id ≡ exchange link nothing (handle_retry env id))
      × (delete_schedule link (mux env out) c id
          ≡ exchange link nothing (Schedules.handle_delete env out id))
      × (pause_schedule link (mux env out) c id ≡ exchange link nothing (handle_pause env out id))
      × (resume_schedule link (mux env out) c id ≡ exchange link nothing (handle_resume env out id))
unfolding get_execution get_execution_events cancel_execution retry_compensation retry_dlq
    delete_schedule pause_schedule resume_schedule
client-mux env out link c id u h =
    let r = outgoing c "" in
    (
      do_request-served link (mux env out) c u "GET" _ "" as_execution _
          (below-IsPath "/executions/" id refl h) (mux-get env out r id h),
      do_request-served link (mux env out) c u "GET" _ "" as_events _
          (between-IsPath "/executions/" id "/events" refl refl h) (mux-events env out r id h),
      do_request-served link (mux env out) c u "POST" _ "" nothing _
          (between-IsPath "/executions/" id "/cancel" refl refl h) (mux-cancel env out r id h),
      do_request-served link (mux env out) c u "POST" _ "" nothing _
          (between-IsPath "/executions/" id "/compensate/retry" refl refl h)
          (mux-compensate env out r id h),
      do_request-served link (mux env out) c u "POST" _ "" nothing _
          (between-IsPath "/activities/dlq/" id "/retry" refl refl h) (mux-dlq env out r id h),
      do_request-served link (mux env out) c u "DELETE" _ "" nothing _
          (below-IsPath "/schedules/" id refl h) (mux-delete env out r id h),
      do_request-served link (mux env out) c u "POST" _ "" nothing _
          (between-IsPath "/schedules/" id "/pause" refl refl h) (mux-pause env out r id h),
      do_request-served link (mux env out) c u "POST" _ "" nothing _
          (between-IsPath "/schedules/" id "/resume" refl refl h) (mux-resume env out r id h),
    )
