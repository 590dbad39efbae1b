-- ===== src/Tui/View.antt =====
-- cmd/tui/main.go: what the terminal interface draws (View), the text of the details, and main. The
-- styles of lipgloss, the widgets of bubbles and the format of times are parameters.
pub mod Errors
use Prim.Native.String
use Prim.Native.String.{◌++◌}
use flowscale.Prelude.{
  ℕ, String, Option, none, some, List, [], ◌∷◌, Bool, true, false, ◌==◌, ◌||◌, if◌then◌else◌,
}
use flowscale.Models.{
  EventType, workflow_started, workflow_completed, workflow_failed, activity_scheduled,
  activity_completed, activity_failed, compensation_started, compensation_completed, EventPayload,
  WorkflowEvent,
}
use flowscale.Runtime.{World}
use flowscale.Api.{Handler}
use flowscale.Client
use flowscale.Client.{Link, Client, Outcome, done, api_error, failed}
use flowscale.Tui.{
  ViewState, view_executions, view_workflows, view_dlq, view_compensation, view_schedules,
  view_detail, Binding, up, down, quit_key, cancel, retry, filter, new, delete_key, enter, back,
  toggle_demo, generate, pause, resume, batch_execute, full_help, Row, Tui, Msg, load_failed,
  loaded, is_detail, initial_model,
}
use flowscale.Tui.Loads.{load_data, load_shipment_status}

-- The keys of a binding, and what the help says of it.
unfoldable pub key_binding : Binding → List String × String × String
key_binding up = ("up" ∷ "k" ∷ [], "↑/k", "up")
key_binding down = ("down" ∷ "j" ∷ [], "↓/j", "down")
key_binding quit_key = ("q" ∷ "ctrl+c" ∷ [], "q", "quit")
key_binding cancel = ("c" ∷ [], "c", "cancel")
key_binding retry = ("r" ∷ [], "r", "retry")
key_binding filter = ("/" ∷ [], "/", "filter")
key_binding new = ("n" ∷ [], "n", "new")
key_binding delete_key = ("d" ∷ [], "d", "delete")
key_binding enter = ("enter" ∷ [], "enter", "select")
key_binding back = ("esc" ∷ [], "esc", "back")
key_binding toggle_demo = ("s" ∷ [], "s", "toggle demo API")
key_binding generate = ("g" ∷ [], "g", "generate demos")
key_binding pause = ("p" ∷ [], "p", "pause")
key_binding resume = ("m" ∷ [], "m", "resume")
key_binding batch_execute = ("B" ∷ [], "B", "batch run (10x)")

-- How text is drawn: a text in a colour of the palette, the styles of the file, and the widgets, of
-- which the help shows all columns of its keys.
pub record Paint : Type 0 where
  pub colored : String → String → String
  pub bold : String → String
  pub active_tab_style : String → String
  pub tab_style : String → String
  pub base_style : String → String
  pub help_style : String → String
  pub table_view : List String → List Row → ℕ → String
  pub viewport_view : String → String
  pub input_view : String → String
  pub help_view : List (List Binding) → String
  pub clock : ℕ → String
  pub payload_text : EventPayload → String
  pub shown_error : String

unfoldable pub event_text : EventType → String
event_text workflow_started = "WORKFLOW_STARTED"
event_text workflow_completed = "WORKFLOW_COMPLETED"
event_text workflow_failed = "WORKFLOW_FAILED"
event_text activity_scheduled = "ACTIVITY_SCHEDULED"
event_text activity_completed = "ACTIVITY_COMPLETED"
event_text activity_failed = "ACTIVITY_FAILED"
event_text compensation_started = "COMPENSATION_STARTED"
event_text compensation_completed = "COMPENSATION_COMPLETED"

unfoldable pub event_color : String → String
event_color s =
    if s == "WORKFLOW_STARTED" || s == "ACTIVITY_STARTED"
    then "33"
    else if s == "WORKFLOW_COMPLETED" || s == "ACTIVITY_COMPLETED"
    then "46"
    else if s == "WORKFLOW_FAILED" || s == "ACTIVITY_FAILED"
    then "196"
    else if s == "WORKFLOW_COMPENSATING"
        || (s == "COMPENSATION_STARTED"
            || (s == "COMPENSATION_COMPLETED" || s == "COMPENSATION_FAILED"))
    then "214"
    else "36"

-- len(s) > 2, for a text of which the bytes beyond the characters do not matter: JSON objects have
-- two braces at least.
longer_than_two : String → Bool
longer_than_two (String.◌∷◌ a (String.◌∷◌ b (String.◌∷◌ c s))) = true
longer_than_two s = false

module _ (paint : Paint) where
  open paint use {
    colored, bold, active_tab_style, tab_style, base_style, help_style, table_view, viewport_view,
    input_view, help_view, clock, payload_text, shown_error,
  }

  event_lines : WorkflowEvent → String
  unfolding longer_than_two
  event_lines ev =
      let name = event_text ev.event_type in
      let body = payload_text ev.payload in
      colored "241" (clock ev.timestamp)
      ++ ("  "
          ++ (bold (colored (event_color name) name)
              ++ ("\n"
                  ++ ((if longer_than_two body then "    " ++ (body ++ "\n") else "") ++ "\n"))))

  timeline : List WorkflowEvent → String
  timeline [] = ""
  timeline (ev ∷ evs) = event_lines ev ++ timeline evs

  unfoldable pub details_of : List WorkflowEvent → String
  unfolding timeline event_lines
  details_of [] = bold "Execution Events Timeline\n\n" ++ "No events found."
  details_of (ev ∷ evs) = bold "Execution Events Timeline\n\n" ++ timeline (ev ∷ evs)

  abbrev detail_msg : Outcome (List WorkflowEvent) × World → Msg × World
  detail_msg (done evs, w) = (loaded view_detail [] (details_of evs), w)
  detail_msg (o, w) = (load_failed, w)

  unfoldable pub fetch_detail : Link → Handler → Client → String → World → Msg × World
  fetch_detail link server c id w = detail_msg (Client.get_execution_events link server c id w)

  -- The number of a view is the place of its tab; the details have no tab.
  abbrev is_tab : ViewState → ViewState → Bool
  is_tab view_executions view_executions = true
  is_tab view_workflows view_workflows = true
  is_tab view_dlq view_dlq = true
  is_tab view_compensation view_compensation = true
  is_tab view_schedules view_schedules = true
  is_tab _ _ = false

  abbrev tab : ViewState → ViewState → String → String
  tab s t title = if is_tab s t then active_tab_style title else tab_style title

  unfoldable pub tabs : ViewState → String
  tabs s =
      tab s view_executions "1: Executions"
      ++ (" | "
          ++ (tab s view_workflows "2: Workflows"
              ++ (" | "
                  ++ (tab s view_dlq "3: DLQ"
                      ++ (" | "
                          ++ (tab s view_compensation "4: Compensations"
                              ++ (" | " ++ tab s view_schedules "5: Schedules")))))))

  unfoldable pub demo_status : Bool → String
  demo_status is_down =
      if is_down then colored "196" "Shipment API: DOWN" else colored "46" "Shipment API: UP"

  -- The line above everything else.
  unfoldable pub head_line : Tui → String
  head_line m = tabs m.state ++ ("    [" ++ (demo_status m.shipment_down ++ "]\n\n"))

  unfoldable pub list_view : Tui → String
  list_view m =
      (if m.is_filtering then "Filter: " ++ (input_view m.filter_input ++ "\n\n") else "")
      ++ (base_style (table_view m.columns m.rows m.cursor)
          ++ ("\n" ++ help_view (full_help m.state)))

  unfoldable pub detail_view : Tui → String
  detail_view m =
      viewport_view m.content ++ ("\n\n" ++ help_style "esc/q: back to list • up/down: scroll")

  unfoldable pub view : Tui → String
  view m =
      head_line m
      ++ (if m.err
          then "Error: " ++ (shown_error ++ "\n")
          else if is_detail m.state
          then detail_view m
          else list_view m)

-- os.Getenv("API_URL"), "" if it is not set
unfoldable pub base_url : String → String
base_url variable = if variable == "" then "http://localhost:8080" else variable

-- Init: the two loads of the start, which run at the same time.
unfoldable pub init :
    Link → Handler → Client → (ℕ → String) → Tui → World → List (Option Msg) × World
init link server c clock m w =
    let (a, w') =
      load_data link server c clock m.state m.filter_status m.filter_workflow m.filter_time w in
    let (b, w'') = load_shipment_status link server c clock w' in (a ∷ b ∷ [], w'')
