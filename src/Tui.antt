-- ===== src/Tui.antt =====
-- cmd/tui/main.go: the terminal interface as a state machine. `update` is Update: the new model, the
-- calls that it makes of the client before it returns, in their order, and the command that it
-- hands back. Styles and scrolling are left out; View is in Tui/View.
pub mod Keys
pub mod Loads
pub mod View
use flowscale.Prelude.{
  ℕ, zero, suc, ◌≡◌, refl, String, Option, none, some, List, [], ◌∷◌, ◌++◌, Bool, true, false, not,
  length, take, drop, find, ◌==◌, ◌||◌, ◌&&◌, if◌then◌else◌,
}
use flowscale.Models.{Workflow, Schedule, recurring, active}
use flowscale.Strings.{has_prefix, trim_prefix}

pub data ViewState : Type 0 where
  view_executions view_workflows view_dlq view_compensation view_schedules view_detail : ViewState

pub data Binding : Type 0 where
  up down quit_key cancel retry filter new delete_key enter back : Binding
  toggle_demo generate pause resume batch_execute : Binding

abbrev own_help : ViewState → List Binding
own_help view_executions = enter ∷ cancel ∷ filter ∷ []
own_help view_workflows = enter ∷ generate ∷ batch_execute ∷ []
own_help view_dlq = enter ∷ retry ∷ []
own_help view_compensation = enter ∷ retry ∷ []
own_help view_schedules = new ∷ delete_key ∷ pause ∷ resume ∷ []
own_help view_detail = back ∷ []

unfoldable pub short_help : ViewState → List Binding
short_help s = up ∷ down ∷ own_help s ++ toggle_demo ∷ quit_key ∷ []

-- The loop of FullHelp: each round takes four keys, so as many rounds as there are keys are enough.
abbrev chunks : ℕ → List Binding → List (List Binding)
chunks zero ks = []
chunks (suc n) [] = []
chunks (suc n) (k ∷ ks) = take 4 (k ∷ ks) ∷ chunks n (drop 4 (k ∷ ks))

unfoldable pub full_help : ViewState → List (List Binding)
unfolding short_help
full_help s = chunks (length (short_help s)) (short_help s)

help_rows :
    full_help view_schedules
    ≡ (up ∷ down ∷ new ∷ delete_key ∷ []) ∷ (pause ∷ resume ∷ toggle_demo ∷ quit_key ∷ []) ∷ []
unfolding full_help
help_rows = refl

-- The titles of the columns; the detail view keeps those that are there.
unfoldable pub columns_for : ViewState → Option (List String)
columns_for view_executions = some ("ID" ∷ "Workflow" ∷ "Status" ∷ [])
columns_for view_workflows = some ("ID" ∷ "Name" ∷ "Activities" ∷ [])
columns_for view_dlq = some ("ID" ∷ "Exec ID" ∷ "Activity" ∷ "Attempt" ∷ [])
columns_for view_compensation = some ("ID" ∷ "Workflow" ∷ "Activity" ∷ "Status" ∷ [])
columns_for view_schedules = some ("ID" ∷ "Workflow" ∷ "Status" ∷ "Next Run" ∷ [])
columns_for view_detail = none

abbrev pub Row : Type 0
Row = List String

pub record Tui : Type 0 where
  pub state : ViewState
  pub columns : List String
  pub rows : List Row
  pub cursor : ℕ
  pub content : String
  pub filter_input : String
  pub filter_status : String
  pub filter_workflow : String
  pub filter_time : String
  pub is_filtering : Bool
  pub shipment_down : Bool
  pub width : ℕ
  pub height : ℕ
  pub err : Bool  -- whether an error is shown

-- What is not in this repository: how the text input takes a key, how the table moves its cursor on
-- a key, and where the cursor stands once the rows are replaced.
pub record Widgets : Type 0 where
  pub edit : String → String → String
  pub move : String → ℕ → ℕ → ℕ
  pub settle : ℕ → ℕ → ℕ

pub data Msg : Type 0 where
  window_size : ℕ → ℕ → Msg
  shipment_status : Bool → Msg
  load_failed : Msg
  loaded : ViewState → List Row → String → Msg
  key : String → Msg

-- The calls of the client; `post_seed` is the request that the key g makes without the client.
pub data ApiCall : Type 0 where
  retry_dlq retry_compensation cancel_execution delete_schedule : String → ApiCall
  pause_schedule resume_schedule start_workflow : String → ApiCall
  set_shipment_status : Bool → ApiCall
  post_seed list_workflows : ApiCall
  create_schedule : Schedule → ApiCall

pub data Cmd : Type 0 where
  no_cmd quit blink : Cmd
  load_data : ViewState → String → String → String → Cmd
  load_detail : String → Cmd

pub record Step : Type 0 where
  pub tui : Tui
  pub calls : List ApiCall
  pub cmd : Cmd

abbrev pub step : Tui → List ApiCall → Cmd → Step
step m calls cmd = record { tui = m; calls = calls; cmd = cmd }

-- m.loadData()
abbrev pub load : Tui → Cmd
load m = load_data m.state m.filter_status m.filter_workflow m.filter_time

abbrev pub or_keep : Option (List String) → List String → List String
or_keep none cs = cs
or_keep (some cs) old = cs

abbrev nth_row : ℕ → List Row → Option Row
nth_row n [] = none
nth_row zero (r ∷ rs) = some r
nth_row (suc n) (r ∷ rs) = nth_row n rs

unfoldable pub selected_row : Tui → Option Row
selected_row m = nth_row m.cursor m.rows

-- row[n]; every row that is loaded has three cells or four.
abbrev pub cell : ℕ → Row → String
cell n [] = ""
cell zero (s ∷ ss) = s
cell (suc n) (s ∷ ss) = cell n ss

-- The filter that was typed; any other text asks for everything.
unfoldable pub parse_filter : String → Tui → Tui
parse_filter val m =
    if has_prefix val "status="
    then record m { filter_status = trim_prefix val "status="; filter_workflow = "" }
    else if has_prefix val "workflow="
    then record m { filter_workflow = trim_prefix val "workflow="; filter_status = "" }
    else record m { filter_status = ""; filter_workflow = "" }

abbrev pub is_executions : ViewState → Bool
is_executions view_executions = true
is_executions s = false

abbrev pub is_schedules : ViewState → Bool
is_schedules view_schedules = true
is_schedules s = false

abbrev pub is_workflows : ViewState → Bool
is_workflows view_workflows = true
is_workflows s = false

abbrev pub times : ℕ → ApiCall → List ApiCall
times zero c = []
times (suc n) c = c ∷ times n c

abbrev minutely : String → Schedule
minutely id = record {
  id = "";
  workflow_id = id;
  schedule_type = recurring;
  run_at = none;
  cron_expression = "* * * * *";
  interval = "";
  next_run_at = 0;
  status = active;
  created_at = 0;
  updated_at = 0;
}

abbrev target : Option Workflow → String
target none = ""
target (some wf) = wf.id

abbrev pub is_detail : ViewState → Bool
is_detail view_detail = true
is_detail s = false

module _ (ui : Widgets) where
  abbrev pub set_rows : List Row → Tui → Tui
  set_rows rows m = record m { rows = rows; cursor = ui.settle (length rows) m.cursor }

  -- A view is entered: no rows, its columns, and the load of its data.
  unfoldable pub enter_view : ViewState → Tui → Tui
  enter_view s m = record (set_rows [] m) { state = s; columns = or_keep (columns_for s) m.columns }

  abbrev pub show_view : ViewState → List ApiCall → Tui → Step
  show_view s calls m = let m' = enter_view s m in step m' calls (load m')

  -- m.table.Update(msg), where no case returns.
  unfoldable pub pass : String → Tui → Step
  pass k m = step (record m { cursor = ui.move k (length m.rows) m.cursor }) [] no_cmd

  -- `if row := m.table.SelectedRow(); row != nil { call(row[n]); return m, m.loadData() }`
  abbrev pub call_row : (String → List ApiCall) → String → Tui → Option Row → Step
  call_row f k m none = pass k m
  call_row f k m (some row) = step m (f (cell 0 row)) (load m)

  unfoldable pub on_selected : (String → List ApiCall) → String → Tui → Step
  on_selected f k m = call_row f k m (selected_row m)

  unfoldable pub filter_key : String → Tui → Step
  filter_key k m =
      let m' = parse_filter m.filter_input (record m { is_filtering = false }) in
      if k == "enter" || k == "esc"
      then step m' [] (load m')
      else step (record m { filter_input = ui.edit k m.filter_input }) [] no_cmd

  unfoldable pub detail_key : String → Tui → Step
  detail_key k m =
      if k == "esc" || k == "q" then show_view view_executions [] m else step m [] no_cmd

  unfoldable pub retry_key : ViewState → Tui → Step
  retry_key view_dlq m = on_selected (λ id. retry_dlq id ∷ []) "r" m
  retry_key view_compensation m = on_selected (λ id. retry_compensation id ∷ []) "r" m
  retry_key s m = pass "r" m

  -- The first workflow of that name, if it has an id; the answer of ListWorkflows may be an error.
  unfoldable pub new_key : Option (List Workflow) → Tui → Step
  new_key none m = record (pass "n" m) { calls = list_workflows ∷ [] }
  new_key (some wfs) m =
      let id = target (find (λ wf. wf.name == "Data-Sync-Cron") wfs) in
      if id == ""
      then record (pass "n" m) { calls = list_workflows ∷ [] }
      else step m (list_workflows ∷ create_schedule (minutely id) ∷ []) (load m)

  abbrev show_detail : String → Tui → Step
  show_detail id m =
      step (record m { state = view_detail; content = "Loading details..." }) [] (load_detail id)

  abbrev pub enter_row : ViewState → Tui → Row → Step
  enter_row view_executions m row = show_detail (cell 0 row) m
  enter_row view_compensation m row = show_detail (cell 0 row) m
  enter_row view_dlq m row = show_detail (cell 1 row) m
  enter_row view_workflows m row = show_view view_executions (start_workflow (cell 0 row) ∷ []) m
  enter_row s m row = pass "enter" m

  abbrev pub enter_selected : Tui → Option Row → Step
  enter_selected m none = pass "enter" m
  enter_selected m (some row) = enter_row m.state m row

  unfoldable pub enter_key : Tui → Step
  enter_key m = enter_selected m (selected_row m)

  unfoldable pub toggle_key : Tui → Step
  toggle_key m =
      let m' = record m { shipment_down = not m.shipment_down } in
      step m' (set_shipment_status m'.shipment_down ∷ []) no_cmd

  -- The switch on the key outside of the filter and of the details, in three parts.
  unfoldable pub late_key : Option (List Workflow) → String → Tui → Step
  late_key answer k m =
      if k == "B" && is_workflows m.state
      then on_selected (λ id. times 10 (start_workflow id)) k m
      else if k == "p" && is_schedules m.state
      then on_selected (λ id. pause_schedule id ∷ []) k m
      else if k == "m" && is_schedules m.state
      then on_selected (λ id. resume_schedule id ∷ []) k m
      else if k == "n" && is_schedules m.state
      then new_key answer m
      else if k == "enter"
      then enter_key m
      else pass k m

  unfoldable pub middle_key : Option (List Workflow) → String → Tui → Step
  middle_key answer k m =
      if k == "r"
      then retry_key m.state m
      else if k == "c" && is_executions m.state
      then on_selected (λ id. cancel_execution id ∷ []) k m
      else if k == "d" && is_schedules m.state
      then on_selected (λ id. delete_schedule id ∷ []) k m
      else if k == "s"
      then toggle_key m
      else if k == "g" && is_workflows m.state
      then step m (post_seed ∷ []) (load m)
      else late_key answer k m

  unfoldable pub list_key : Option (List Workflow) → String → Tui → Step
  list_key answer k m =
      if k == "ctrl+c" || k == "q"
      then step m [] quit
      else if k == "1"
      then show_view view_executions [] m
      else if k == "2"
      then show_view view_workflows [] m
      else if k == "3"
      then show_view view_dlq [] m
      else if k == "4"
      then show_view view_compensation [] m
      else if k == "5"
      then show_view view_schedules [] m
      else if k == "/" && is_executions m.state
      then step (record m { is_filtering = true }) [] blink
      else middle_key answer k m

  abbrev pub show_loaded : ViewState → List Row → String → Tui → Tui
  show_loaded view_detail rows details m = record m { content = details }
  show_loaded s rows details m = record (set_rows rows m) { cursor = 0 }

  -- `answer` is what ListWorkflows returns, if this message asks for it.
  unfoldable pub update : Option (List Workflow) → Msg → Tui → Step
  update answer (window_size width height) m =
      step (record m { width = width; height = height }) [] no_cmd
  update answer (shipment_status is_down) m = step (record m { shipment_down = is_down }) [] no_cmd
  update answer load_failed m = step (record m { err = true }) [] no_cmd
  update answer (loaded s rows details) m = step (show_loaded s rows details m) [] no_cmd
  update answer (key k) m =
      if m.is_filtering
      then filter_key k m
      else if is_detail m.state
      then detail_key k m
      else list_key answer k m

-- The model that the program starts with; the table has its cursor on the first row.
abbrev pub initial_model : Tui
initial_model = record {
  state = view_executions;
  columns = "ID" ∷ "Workflow" ∷ "Status" ∷ [];
  rows = [];
  cursor = 0;
  content = "";
  filter_input = "";
  filter_status = "";
  filter_workflow = "";
  filter_time = "24h";
  is_filtering = false;
  shipment_down = false;
  width = 0;
  height = 0;
  err = false;
}
