-- ===== src/Api/Calls/Executions.antt =====
-- The handlers of executions and of the dead letter queue make at most one writing call.
use flowscale.Prelude.{ℕ, ◌-◌, refl, Option, none, some, String, List}
use flowscale.Models.{WorkflowExecution}
use flowscale.Runtime.{Env, Db, World, Result, ◌>>=◌, query, tick}
use flowscale.System.{
  perform, on_start, on_cancel, on_delete_execution, on_retry, on_retry_compensation,
}
use flowscale.Repository.Listings.{since_of, list_executions}
use flowscale.Repository.ExecutionQueries.{get_execution_events, list_dead_lettered_activities}
use flowscale.Api.{Request, Outside}
use flowscale.Api.Executions
use flowscale.Api.Executions.{
  serve_get, start_request, execution_handler, handle_start, handle_get_events,
  handle_retry_compensation, handle_cancel,
}
use flowscale.Api.Dlq
use flowscale.Api.Dlq.{third_of_four, handle_retry, retry_third, dlq_handler}
use flowscale.Api.Calls.{
  Called, Called-tick, Within, Within-stop, Within-decoded, Within-replying, Within-reading,
  query-Called, within_rules,
}

since-Called :
    (env : Env) (n : ℕ) (range : Option ℕ) (f : Option ℕ → Db → Result (List WorkflowExecution))
    (w : World)
    → Called env n w ((since_of env range >>= λ from. query env (f from)) w).1
unfolding ◌>>=◌
since-Called env n none f w = query-Called env (f none) n w
since-Called env n (some d) f w =
    Called-tick env n w _ (query-Called env (f (some (env.now w.calls - d))) n (tick w))

module _ (env : Env) (out : Outside) where
  start_request-Within : (id : String) → Within env 1 (start_request env out id)
  unfolding start_request perform
  start_request-Within id = Within-replying _ _ (on_start id) _ (λ w. refl)

  handle_start-Within : (r : Request) → Within env 1 (handle_start env out r)
  unfolding handle_start
  handle_start-Within r = Within-decoded _ _ _ start_request-Within

  list-Within : (r : Request) → Within env 1 (Executions.handle_list env out r)
  unfolding Executions.handle_list list_executions
  list-Within r = Within-reading _ _ _ (λ w. since-Called env 1 _ _ w)

  retry_compensation-Within : (id : String) → Within env 1 (handle_retry_compensation env out id)
  unfolding handle_retry_compensation perform
  retry_compensation-Within id = Within-replying _ _ (on_retry_compensation id) _ (λ w. refl)

  cancel-Within : (id : String) → Within env 1 (handle_cancel env out id)
  unfolding handle_cancel perform
  cancel-Within id = Within-replying _ _ (on_cancel id) _ (λ w. refl)

  delete-Within : (id : String) → Within env 1 (Executions.handle_delete env out id)
  unfolding Executions.handle_delete perform
  delete-Within id = Within-replying _ _ (on_delete_execution id) _ (λ w. refl)

  events-Within : (id : String) → Within env 1 (handle_get_events env out id)
  unfolding handle_get_events get_execution_events
  events-Within id = Within-reading _ _ _ (query-Called env _ 1)

  get-Within : (id : String) → Within env 1 (Executions.handle_get env out id)
  unfolding Executions.handle_get
  get-Within id = Within-reading _ _ _ (query-Called env _ 1)

  serve_get-Within : (id : String) (r : Request) → Within env 1 (serve_get env out id r)
  unfolding serve_get
  serve_get-Within id r = search (within_rules, list-Within, events-Within, get-Within) depth 8

  pub execution_handler-Within : (r : Request) → Within env 1 (execution_handler env out r)
  unfolding execution_handler
  execution_handler-Within r =
      search
        (
          within_rules, handle_start-Within, list-Within, retry_compensation-Within, cancel-Within,
          serve_get-Within, delete-Within,
        )
        depth 12

  retry-Within : (id : String) → Within env 1 (handle_retry env id)
  unfolding handle_retry perform
  retry-Within id = Within-replying _ _ (on_retry id) _ (λ w. refl)

  third-Within : (o : Option String) → Within env 1 (retry_third env o)
  third-Within none = Within-stop _
  third-Within (some id) = retry-Within id

  dlq_list-Within : Within env 1 (Dlq.handle_list env)
  unfolding Dlq.handle_list list_dead_lettered_activities
  dlq_list-Within = Within-reading _ _ _ (query-Called env _ 1)

  pub dlq_handler-Within : (r : Request) → Within env 1 (dlq_handler env r)
  unfolding dlq_handler
  dlq_handler-Within r = search (within_rules, third-Within, dlq_list-Within) depth 8
