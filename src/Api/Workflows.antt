-- ===== src/Api/Workflows.antt =====
-- internal/api/workflow_handler.go
use flowscale.Prelude.{String, ◌==◌, ◌&&◌, not, if◌then◌else◌}
use flowscale.Models.{Workflow}
use flowscale.Strings.{trim_prefix, trim}
use flowscale.Runtime.{Env, Error, workflow_not_found}
use flowscale.Repository.WorkflowRepo.{
  create_workflow, update_workflow, get_workflow, delete_workflow,
}
use flowscale.Repository.Listings.{list_workflows}
use flowscale.Api.{
  Request, Outside, no_body, text, workflow, workflows, Response, respond, not_found, Serving, stop,
  replying, asking, decoded, query_get, limit_of, offset_of,
}

abbrev internal_error : Response
internal_error = respond 500 (text "internal server error")

abbrev missing_is_404 : Error → Response
missing_is_404 workflow_not_found = respond 404 (text "not found")
missing_is_404 e = internal_error

abbrev pub with_id : String → Workflow → Workflow
with_id id wf = record wf { id = id }

module _ (env : Env) (out : Outside) where
  unfoldable pub create_as : Workflow → String → Serving
  create_as wf id =
      replying (λ u. respond 201 (workflow (with_id id wf)))
        (λ e. respond 500 (text "failed to create workflow")) (create_workflow env (with_id id wf))

  unfoldable pub create_named : Workflow → Serving
  create_named wf =
      if wf.name == ""
      then stop (respond 400 (text "workflow name is required"))
      else asking env.uuid (create_as wf)

  unfoldable pub handle_create : Request → Serving
  handle_create r = decoded (out.decode_workflow r.body) "invalid json" create_named

  unfoldable pub update_as : String → Workflow → Serving
  update_as id wf =
      if wf.name == ""
      then stop (respond 400 (text "workflow name is required"))
      else replying (λ u. respond 200 (workflow (with_id id wf)))
          (λ e. respond 500 (text "failed to update workflow"))
          (update_workflow env (with_id id wf))

  unfoldable pub handle_update : String → Request → Serving
  handle_update id r = decoded (out.decode_workflow r.body) "invalid json" (update_as id)

  unfoldable pub handle_get : String → Serving
  handle_get id = replying (λ wf. respond 200 (workflow wf)) missing_is_404 (get_workflow env id)

  unfoldable pub handle_list : Request → Serving
  handle_list r =
      replying (λ wfs. respond 200 (workflows wfs)) (λ e. internal_error)
        (list_workflows env (limit_of (query_get out r "limit"))
          (offset_of (query_get out r "offset")))

  unfoldable pub handle_delete : String → Serving
  handle_delete id = replying (λ u. respond 204 no_body) missing_is_404 (delete_workflow env id)

  unfoldable pub workflow_handler : Request → Serving
  workflow_handler r =
      let path = trim (trim_prefix r.path "/workflows") b'/' in
      if r.method == "POST" && path == ""
      then handle_create r
      else if r.method == "GET" && path == ""
      then handle_list r
      else if r.method == "GET" && not (path == "")
      then handle_get path
      else if r.method == "PUT" && not (path == "")
      then handle_update path r
      else if r.method == "DELETE" && not (path == "")
      then handle_delete path
      else stop not_found
