-- ===== src/Api/Dlq.antt =====
-- internal/api/dlq_handler.go
use flowscale.Prelude.{String, List, [], ◌∷◌, Option, none, some, ◌==◌, ◌&&◌, if◌then◌else◌}
use flowscale.Strings.{trim_prefix, has_prefix, has_suffix, split}
use flowscale.Runtime.{Env}
use flowscale.Repository.ExecutionQueries.{list_dead_lettered_activities}
use flowscale.Engine.Manual.{retry_dead_lettered_activity}
use flowscale.Api.{Request, no_body, error, activities, respond, not_found, Serving, stop, replying}

-- `parts[2]` if there are four parts.
abbrev pub third_of_four : List String → Option String
third_of_four (a ∷ b ∷ id ∷ d ∷ []) = some id
third_of_four _ = none

module _ (env : Env) where
  unfoldable pub handle_list : Serving
  handle_list =
      replying (λ acts. respond 200 (activities acts)) (λ e. respond 500 (error e))
        (list_dead_lettered_activities env)

  unfoldable pub handle_retry : String → Serving
  handle_retry id =
      replying (λ u. respond 202 no_body) (λ e. respond 500 (error e))
        (retry_dead_lettered_activity env id)

  abbrev pub retry_third : Option String → Serving
  retry_third none = stop not_found
  retry_third (some id) = handle_retry id

  unfoldable pub dlq_handler : Request → Serving
  dlq_handler r =
      let path = trim_prefix r.path "/" in
      if r.method == "GET" && path == "activities/dlq"
      then handle_list
      else if r.method == "POST" && has_prefix path "activities/dlq/" && has_suffix path "/retry"
      then retry_third (third_of_four (split path b'/'))
      else stop not_found
