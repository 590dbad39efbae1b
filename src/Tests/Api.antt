-- ===== src/Tests/Api.antt =====
-- Requests to the API on concrete tables, and what the theorems on the API say of them.

use flowscale.Prelude.Predicates.{All}
use flowscale.Prelude.{
  ℕ, suc, ◌/◌, ◌^◌, ◌+◌, ◌*◌, ◌<◌, ◌≡◌, refl, sym, subst, ◌⊎◌, ◌≢◌, String, Option, none, some, [],
  ◌∷◌, true, false, find, any, ltb, ◌==◌, ◌&&◌, eq_iff, arith, if◌then◌else◌,
}
use flowscale.Models.{pos, User, AuthRequest, Schedule, once, active}
use flowscale.Strings.{eqb, cut_prefix, cut_suffix, trim}
use flowscale.Runtime.{World, tick, query, tx}
use flowscale.Strings.Splits.{NoChar}
use flowscale.Repository.UserRepo.{get_user_by_username}
use flowscale.Repository.WorkflowRepo.{delete_workflow}
use flowscale.Repository.ScheduleRepo.{delete_schedule, update_schedule_state, due_in}
use flowscale.Repository.Listings.{executions_listed}
use flowscale.Api.{replying, asking}
use flowscale.Api.Calls.{Called}
use flowscale.Api.Calls.Server.{writes_allowed, serve-Called}
use flowscale.Api.Access.{HasNoToken, Untouched, serve-Untouched}
use flowscale.Api.Auth.{login, give_token, claims_of}
use flowscale.Api.Middleware.{bearer, auth}
use flowscale.Api.Tokens.{logged_in, IsIssued, VerifiesOwn, login-IsIssued, auth-login}
use flowscale.Api.Executions
use flowscale.Api.Executions.{handle_get_events, handle_cancel, handle_retry_compensation}
use flowscale.Api.Dlq.{handle_retry}
use flowscale.Api.Workflows
use flowscale.Api.Workflows.{workflow_handler}
use flowscale.Api.Schedules
use flowscale.Api.Schedules.{handle_pause, handle_resume, schedule_handler}
use flowscale.Api.Refusals.{refused-Untouched}
use flowscale.Api.Pausing.{pause-due_in}
use flowscale.Api.Mux.{mux, serve}
use flowscale.Api.Mux.Segments.{IsSegment}
use flowscale.Client.{
  Link, Client, exchange, as_execution, as_events, nothing, get_execution, get_execution_events,
  cancel_execution, retry_compensation, retry_dlq, delete_schedule as forget_schedule,
  pause_schedule, resume_schedule,
}
use flowscale.Client.Routes.{client-mux}
use flowscale.Repository.Listings.Filters.{IsPage, executions_listed-IsPage}
use flowscale.Api.{Request, Outside, Claims}
use flowscale.Tests.Scenario.{env, saga, empty_db, world_of, started}

abbrev the_claims : Claims
the_claims = record { sub = "u"; username = "admin"; exp = 86400 }

abbrev sign_one : Claims → Option String
sign_one c = if c.sub == "u" && c.username == "admin" && eqb c.exp 86400 then some "tok" else none

abbrev parse_one : String → ℕ → Option Claims
parse_one t now = if t == "tok" && ltb (now / 10 ^ 9) 86400 then some the_claims else none

-- Bodies decode to fixed values, a password is stored as it is, and one token is known.
abbrev pub out : Outside
out = record {
  decode_workflow = λ s. some saga;
  decode_start = λ s. some s;
  decode_schedule = λ s. none;
  decode_auth = λ s. some (record { username = "admin"; password = "admin" });
  decode_shipment = λ s. some true;
  unescape = λ s. some s;
  password_matches = λ h p. h == p;
  sign = sign_one;
  parse_token = parse_one;
  limiter_allows = λ n. true;
  queue_depth = λ n. some 0;
  files_fail = λ n. false;
  metrics_page = λ m. "";
}

abbrev pub admin : User
admin = record { id = "u"; username = "admin"; password_hash = "admin"; created_at = 0 }

abbrev nightly : Schedule
nightly = record {
  id = "s";
  workflow_id = "w";
  schedule_type = once;
  run_at = none;
  cron_expression = "";
  interval = "";
  next_run_at = 5;
  status = active;
  created_at = 0;
  updated_at = 0;
}

abbrev pub site : World
site = world_of (record empty_db { users = admin ∷ []; schedules = nightly ∷ [] })

abbrev request : String → String → String → Request
request method path authorization = record {
  method = method;
  path = path;
  query = "";
  authorization = authorization;
  body = "w";
}

serve-Called_example :
    Called env
      (writes_allowed "/workflows/start")
      site
      (serve env out (request "POST" "/workflows/start" "Bearer tok") site).1
serve-Called_example = serve-Called env out (request "POST" "/workflows/start" "Bearer tok") site

no_bearer : bearer "Basic tok" ≡ none
unfolding bearer
no_bearer = refl

no_token : HasNoToken out (request "DELETE" "/workflows/w" "Basic tok")
no_token = record { refused = λ t now e. ground (arith, e, no_bearer) }

serve-Untouched_example :
    Untouched site (serve env out (request "DELETE" "/workflows/w" "Basic tok") site).1
serve-Untouched_example =
    serve-Untouched env out (request "DELETE" "/workflows/w" "Basic tok") site no_token

abbrev pub link : Link
link = record {
  unescape_path = λ s. some s;
  encode_workflow = λ wf. wf.name;
  encode_start = λ id. id;
  encode_schedule = λ s. s.id;
  encode_auth = λ a. a.username;
  encode_shipment = λ b. "";
  loses_request = λ n. false;
  loses_response = λ n. false;
}

abbrev pub client : Client
client = record { token = "tok" }

e1-IsSegment : IsSegment "e1"
e1-IsSegment = record {
  filled = λ e. ground (arith, (eq_iff "e1" "").1 e);
  no_dot = λ e. ground (arith, (eq_iff "e1" ".").1 e);
  no_dots = λ e. ground (arith, (eq_iff "e1" "..").1 e);
  no_slash = (refl, (refl, tt));
  no_query = (refl, (refl, tt));
  no_fragment = (refl, (refl, tt));
  no_percent = (refl, (refl, tt));
}

client-mux_example :
    (get_execution link (mux env out) client "e1"
      ≡ exchange link as_execution (Executions.handle_get env out "e1"))
    × (get_execution_events link (mux env out) client "e1"
        ≡ exchange link as_events (handle_get_events env out "e1"))
    × (cancel_execution link (mux env out) client "e1"
        ≡ exchange link nothing (handle_cancel env out "e1"))
    × (retry_compensation link (mux env out) client "e1"
        ≡ exchange link nothing (handle_retry_compensation env out "e1"))
    × (retry_dlq link (mux env out) client "e1" ≡ exchange link nothing (handle_retry env "e1"))
    × (forget_schedule link (mux env out) client "e1"
        ≡ exchange link nothing (Schedules.handle_delete env out "e1"))
    × (pause_schedule link (mux env out) client "e1"
        ≡ exchange link nothing (handle_pause env out "e1"))
    × (resume_schedule link (mux env out) client "e1"
        ≡ exchange link nothing (handle_resume env out "e1"))
client-mux_example =
    client-mux env out link client "e1" (record { plain = λ s h. refl }) e1-IsSegment

abbrev credentials : AuthRequest
credentials = record { username = "admin"; password = "admin" }

logs_in : (login env out credentials site).0 ≡ logged_in admin "tok"
unfolding login give_token get_user_by_username query find claims_of asking env
logs_in = refl

login-IsIssued_example : IsIssued env out credentials site admin "tok"
login-IsIssued_example = login-IsIssued env out credentials site admin "tok" logs_in

is_the : (c : Claims) → c.sub ≡ "u" → c.username ≡ "admin" → c.exp ≡ 86400 → the_claims ≡ c
is_the c a b d = ground (arith, a, b, d)

signed_one :
    (c : Claims) (t : String)
    → sign_one c ≡ some t
    → (c.sub ≡ "u") × (c.username ≡ "admin") × (c.exp ≡ 86400) × (t ≡ "tok")
signed_one c t e = ground (arith, e, eq_iff c.sub "u", eq_iff c.username "admin")

out-VerifiesOwn : VerifiesOwn out
out-VerifiesOwn = record {
  accepted = λ c t now e h.
      (let (a, b, d, f) = signed_one c t e in rw f (ground (arith, h, is_the c a b d)));
  one_word = λ c t e. subst (NoChar b' ') (sym (signed_one c t e).3) (refl, (refl, (refl, tt)));
}

in_time : env.now site.calls / 10 ^ 9 < (env.now (suc site.calls) + 24 * 3600 * 10 ^ 9) / 10 ^ 9
unfolding env
in_time = omega arith

auth-login_example :
    (auth env out (mux env out) (request "GET" "/schedules" "Bearer tok") site
      ≡ mux env out (request "GET" "/schedules" "Bearer tok") site)
    ⊎ (auth env out (mux env out) (request "GET" "/schedules" "Bearer tok") site
        ≡ mux env out (request "GET" "/schedules" "Bearer tok") (tick site))
auth-login_example =
    auth-login env out credentials site admin "tok" (mux env out)
      (request "GET" "/schedules" "Bearer tok") site out-VerifiesOwn logs_in refl in_time

executions_listed-IsPage_example :
    IsPage "RUNNING, FAILED" "w" none 10
      (pos 0)
      (executions_listed "RUNNING, FAILED" "w" none (pos 0) (pos 0) started.db)
      (executions_listed "RUNNING, FAILED" "w" none (pos 10) (pos 0) started.db)
executions_listed-IsPage_example =
    executions_listed-IsPage "RUNNING, FAILED" "w" none 9 (pos 0) started.db

missing_workflow :
    (workflow_handler env out (request "DELETE" "/workflows/x" "") site).0.status ≡ 404
unfolding workflow_handler Workflows.handle_delete replying delete_workflow tx cut_prefix trim any
    env
missing_workflow = refl

missing_schedule :
    (schedule_handler env out (request "DELETE" "/schedules/x" "") site).0.status ≡ 500
unfolding schedule_handler Schedules.handle_delete replying delete_schedule tx cut_prefix cut_suffix
    any env
missing_schedule = refl

refused-Untouched_example :
    Untouched site (workflow_handler env out (request "DELETE" "/workflows/x" "") site).1
    × Untouched site (schedule_handler env out (request "DELETE" "/schedules/x" "") site).1
refused-Untouched_example =
    refused-Untouched env out (request "DELETE" "/workflows/x" "")
      (request "DELETE" "/schedules/x" "") site site (omega (arith, missing_workflow))
      (omega (arith, missing_schedule))

paused_now : (handle_pause env out "s" site).0.status ≡ 200
unfolding handle_pause replying update_schedule_state tx env
paused_now = refl

resumed_now : (handle_resume env out "s" site).0.status ≡ 200
unfolding handle_resume replying update_schedule_state tx env
resumed_now = refl

pause-due_in_example :
    All (λ s. s.id ≢ "s") (due_in 9 (handle_pause env out "s" site).1.db.schedules)
    × All (λ s. (s.id ≡ "s") → s.status ≡ active) (handle_resume env out "s" site).1.db.schedules
pause-due_in_example = pause-due_in env out "s" site site 9 paused_now resumed_now
