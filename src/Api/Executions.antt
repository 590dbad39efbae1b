-- ===== src/Api/Executions.antt =====
-- internal/api/execution_handler.go
use flowscale.Prelude.{String, ◌==◌, ◌&&◌, ◌||◌, if◌then◌else◌}
use flowscale.Strings.{trim_prefix, trim_suffix, has_prefix, has_suffix}
use flowscale.Runtime.{Env, Error, execution_not_found}
use flowscale.Repository.ExecutionRepo.{delete_execution}
use flowscale.Repository.ExecutionQueries.{get_execution, get_execution_events}
use flowscale.Repository.Listings.{list_executions}
use flowscale.Engine.Start.{start_workflow}
use flowscale.Engine.Manual.{retry_compensation, cancel}
use flowscale.Api.{
  Request, Outside, no_body, text, error, execution, executions, events, Response, respond,
  not_found, Serving, stop, replying, decoded, query_get, limit_of, offset_of,
}

abbrev internal_error : Response
internal_error = respond 500 (text "internal server error")

abbrev delete_failed : Error → Response
delete_failed execution_not_found = respond 404 (text "not found")
delete_failed e = internal_error

module _ (env : Env) (out : Outside) where
  unfoldable pub start_request : String → Serving
  start_request id =
      replying (λ e. respond 201 (execution e)) (λ e. respond 500 (error e)) (start_workflow env id)

  unfoldable pub handle_start : Request → Serving
  handle_start r = decoded (out.decode_start r.body) "invalid json" start_request

  unfoldable pub handle_get : String → Serving
  handle_get id =
      replying (λ e. respond 200 (execution e)) (λ e. internal_error) (get_execution env id)

  unfoldable pub handle_list : Request → Serving
  handle_list r =
      replying (λ es. respond 200 (executions es)) (λ e. internal_error)
        (list_executions env (query_get out r "status") (query_get out r "workflow_id")
          (query_get out r "time_range") (limit_of (query_get out r "limit"))
          (offset_of (query_get out r "offset")))

  unfoldable pub handle_get_events : String → Serving
  handle_get_events id =
      replying (λ es. respond 200 (events es)) (λ e. internal_error) (get_execution_events env id)

  unfoldable pub handle_retry_compensation : String → Serving
  handle_retry_compensation id =
      replying (λ u. respond 202 no_body) (λ e. respond 500 (error e)) (retry_compensation env id)

  unfoldable pub handle_cancel : String → Serving
  handle_cancel id =
      replying (λ u. respond 202 no_body) (λ e. respond 500 (error e)) (cancel env id)

  unfoldable pub handle_delete : String → Serving
  handle_delete id = replying (λ u. respond 204 no_body) delete_failed (delete_execution env id)

  -- A GET behind "executions/": the list for the empty id, the events for the suffix "/events".
  unfoldable pub serve_get : String → Request → Serving
  serve_get id r =
      if id == ""
      then handle_list r
      else if has_suffix id "/events"
      then handle_get_events (trim_suffix id "/events")
      else handle_get id

  unfoldable pub execution_handler : Request → Serving
  execution_handler r =
      let path = trim_prefix r.path "/" in
      let id = trim_prefix path "executions/" in
      if r.method == "POST" && path == "workflows/start"
      then handle_start r
      else if r.method == "GET" && (path == "executions" || path == "executions/")
      then handle_list r
      else if r.method == "POST"
          && has_prefix path "executions/"
          && has_suffix path "/compensate/retry"
      then handle_retry_compensation (trim_suffix id "/compensate/retry")
      else if r.method == "POST" && has_prefix path "executions/" && has_suffix path "/cancel"
      then handle_cancel (trim_suffix id "/cancel")
      else if r.method == "GET" && has_prefix path "executions/"
      then serve_get id r
      else if r.method == "DELETE" && has_prefix path "executions/"
      then handle_delete id
      else stop not_found
