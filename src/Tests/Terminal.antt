-- ===== src/Tests/Terminal.antt =====
-- Keys pressed in the terminal interface, and what the theorems say of them.
use flowscale.Prelude.Predicates.{All}
use flowscale.Prelude.{◌≡◌, refl, none, some, List, [], ◌∷◌}
use flowscale.Models.{WorkflowExecution, ExecutionStatus, status_text}
use flowscale.Api.Access.{Untouched}
use flowscale.Api.Mux.{serve}
use flowscale.Client.{
  exchange, do_request, new_request, list_workflows as list_all, list_executions as list_runs,
}
use flowscale.Tui.{
  Row, view_executions, Tui, Widgets, key, cancel_execution, initial_model, loaded, update,
  list_key, middle_key, on_selected, selected_row,
}
use flowscale.Tui.Keys.{Allowed, update-Allowed}
use flowscale.Tui.Loads.{seed, load_data, load_view, color_status, workflow_name}
use flowscale.Tui.Loads.Widths.{FitsView, load_data-fits, seed-Untouched}
use flowscale.Api.{Handler, executions, respond}
use flowscale.Tests.Scenario.{env}
use flowscale.Tests.Api.{out, site, link, client}

abbrev ui : Widgets
ui = record { edit = λ k s. s; move = λ k n c. c; settle = λ n c. c }

abbrev listed : Tui
listed = record initial_model { rows = ("e1" ∷ "saga" ∷ "RUNNING" ∷ []) ∷ [] }

cancels : (update ui none (key "c") listed).calls ≡ cancel_execution "e1" ∷ []
unfolding update list_key middle_key on_selected selected_row
cancels = refl

update-Allowed_example : All (Allowed listed) (update ui none (key "c") listed).calls
update-Allowed_example = update-Allowed ui none (key "c") listed

seed-Untouched_example : Untouched site (seed link (serve env out) client (λ n. "") site)
seed-Untouched_example = seed-Untouched env out link client (λ n. "") site

abbrev run : WorkflowExecution
run = record {
  id = "e1";
  workflow_id = "w";
  workflow_name = "saga";
  status = ExecutionStatus.failed;
  current_activity = "ship";
  created_at = 0;
  updated_at = 0;
}

-- A server that answers every request with one execution; as a list of workflows it is an error.
abbrev idle : Handler
idle r w = (respond 200 (executions (run ∷ [])), w)

abbrev run_rows : List Row
run_rows = ("e1" ∷ "w" ∷ "❌ FAILED" ∷ []) ∷ []

one_row_loaded :
    (load_data link idle client (λ n. "") view_executions "" "" "24h" site).0
    ≡ some (loaded view_executions run_rows "")
unfolding load_data load_view list_all list_runs do_request new_request exchange color_status
    workflow_name status_text
one_row_loaded = refl

load_data-fits_example :
    (view_executions ≡ view_executions) × All (FitsView view_executions) run_rows
load_data-fits_example =
    load_data-fits link idle client (λ n. "") view_executions view_executions "" "" "24h" site
      run_rows "" one_row_loaded
