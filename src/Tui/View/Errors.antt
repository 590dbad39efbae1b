-- ===== src/Tui/View/Errors.antt =====
-- An error that is shown stays.
use Prim.Native.String.{◌++◌}
use flowscale.Prelude.{
  Bool, ◌∙◌, false, if◌then◌else◌, ◌≡◌, refl, String, Option, none, some, List, [], ◌∷◌, true,
  arith,
}
use flowscale.Models.{Workflow}
use flowscale.Tui.{
  ViewState, view_executions, view_workflows, view_dlq, view_compensation, view_schedules,
  view_detail, Row, Tui, Widgets, Msg, window_size, shipment_status, load_failed, loaded, key, Step,
  enter_view, show_view, pass, call_row, enter_selected, ApiCall, on_selected, parse_filter,
  filter_key, detail_key, retry_key, new_key, enter_row, enter_key, toggle_key, late_key,
  middle_key, list_key, selected_row, update, is_detail, step, Cmd, blink,
}
use flowscale.Tui.View.{Paint, view, head_line}

module _ (ui : Widgets) where
  -- The model after messages, the first one first, each with the answer of ListWorkflows.
  unfoldable pub run : List (Option (List Workflow) × Msg) → Tui → Tui
  run [] m = m
  run ((answer, msg) ∷ msgs) m = run msgs (update ui answer msg m).tui

  -- The step leaves the error as it was.
  record Same (m : Tui) (s : Step) : Type 0 where
    same : s.tui.err ≡ m.err

  Same-if : (m : Tui) (b : Bool) (s t : Step) → Same m s → Same m t → Same m (if b then s else t)
  Same-if m true s t h k = h
  Same-if m false s t h k = k

  enter_view-err : (s : ViewState) (m : Tui) → (enter_view ui s m).err ≡ m.err
  unfolding enter_view
  enter_view-err s m = refl

  pass-Same : (k : String) (m : Tui) → Same m (pass ui k m)
  unfolding pass
  pass-Same k m = record { same = refl }

  call_row-Same :
      (f : String → List ApiCall) (k : String) (m : Tui) (r : Option Row)
      → Same m (call_row ui f k m r)
  call_row-Same f k m none = pass-Same k m
  call_row-Same f k m (some row) = record { same = refl }

  on_selected-Same :
      (f : String → List ApiCall) (k : String) (m : Tui) → Same m (on_selected ui f k m)
  unfolding on_selected
  on_selected-Same f k m = call_row-Same f k m (selected_row m)

  retry_key-Same : (s : ViewState) (m : Tui) → Same m (retry_key ui s m)
  unfolding retry_key
  retry_key-Same view_dlq m = on_selected-Same _ _ m
  retry_key-Same view_compensation m = on_selected-Same _ _ m
  retry_key-Same view_executions m = pass-Same "r" m
  retry_key-Same view_workflows m = pass-Same "r" m
  retry_key-Same view_schedules m = pass-Same "r" m
  retry_key-Same view_detail m = pass-Same "r" m

  enter_row-Same : (s : ViewState) (m : Tui) (row : Row) → Same m (enter_row ui s m row)
  enter_row-Same view_executions m row = record { same = refl }
  enter_row-Same view_compensation m row = record { same = refl }
  enter_row-Same view_dlq m row = record { same = refl }
  enter_row-Same view_workflows m row = record { same = enter_view-err view_executions m }
  enter_row-Same view_schedules m row = pass-Same "enter" m
  enter_row-Same view_detail m row = pass-Same "enter" m

  enter_selected-Same : (m : Tui) (r : Option Row) → Same m (enter_selected ui m r)
  enter_selected-Same m none = pass-Same "enter" m
  enter_selected-Same m (some row) = enter_row-Same m.state m row

  enter_key-Same : (m : Tui) → Same m (enter_key ui m)
  unfolding enter_key
  enter_key-Same m = enter_selected-Same m (selected_row m)

  new_key-Same : (answer : Option (List Workflow)) (m : Tui) → Same m (new_key ui answer m)
  unfolding new_key pass
  new_key-Same none m = record { same = refl }
  new_key-Same (some wfs) m = record { same = ground arith }

  filter_key-Same : (k : String) (m : Tui) → Same m (filter_key ui k m)
  unfolding filter_key parse_filter
  filter_key-Same k m = record { same = ground arith }

  detail_key-Same : (k : String) (m : Tui) → Same m (detail_key ui k m)
  unfolding detail_key
  detail_key-Same k m = record { same = ground (arith, enter_view-err view_executions m) }

  late_key-Same :
      (answer : Option (List Workflow)) (k : String) (m : Tui) → Same m (late_key ui answer k m)
  unfolding late_key
  late_key-Same answer k m =
      search (Same-if, on_selected-Same, new_key-Same, enter_key-Same, pass-Same) depth 12

  show_view-Same :
      (s : ViewState) (calls : List ApiCall) (m : Tui) → Same m (show_view ui s calls m)
  show_view-Same s calls m = record { same = enter_view-err s m }

  toggle_key-Same : (m : Tui) → Same m (toggle_key ui m)
  unfolding toggle_key
  toggle_key-Same m = record { same = refl }

  step-Same : (m : Tui) (calls : List ApiCall) (c : Cmd) → Same m (step m calls c)
  step-Same m calls c = record { same = refl }

  middle_key-Same :
      (answer : Option (List Workflow)) (k : String) (m : Tui) → Same m (middle_key ui answer k m)
  unfolding middle_key
  middle_key-Same answer k m =
      search (Same-if, on_selected-Same, retry_key-Same, toggle_key-Same, step-Same, late_key-Same)
        depth 12

  filtering-Same : (m : Tui) → Same m (step (record m { is_filtering = true }) [] blink)
  filtering-Same m = record { same = refl }

  list_key-Same :
      (answer : Option (List Workflow)) (k : String) (m : Tui) → Same m (list_key ui answer k m)
  unfolding list_key
  list_key-Same answer k m =
      search (Same-if, step-Same, show_view-Same, filtering-Same, middle_key-Same) depth 14

  update-err :
      (answer : Option (List Workflow)) (msg : Msg) (m : Tui)
      → m.err ≡ true
      → (update ui answer msg m).tui.err ≡ true
  unfolding update
  update-err answer (window_size width height) m h = h
  update-err answer (shipment_status b) m h = h
  update-err answer load_failed m h = refl
  update-err answer (loaded view_detail rows details) m h = h
  update-err answer (loaded s rows details) m h = h
  update-err answer (key k) m h =
      let s =
        Same-if m m.is_filtering (filter_key ui k m) _ (filter_key-Same k m)
          (Same-if m (is_detail m.state) _ _ (detail_key-Same k m) (list_key-Same answer k m)) in
      s.same ∙ h

  run-err :
      (msgs : List (Option (List Workflow) × Msg)) (m : Tui)
      → m.err ≡ true
      → (run msgs m).err ≡ true
  unfolding run
  run-err [] m h = h
  run-err ((answer, msg) ∷ msgs) m h =
      run-err msgs (update ui answer msg m).tui (update-err answer msg m h)

  -- Once a load has failed, what is drawn is the error under the line of tabs, whatever messages
  -- follow: neither a later load, a key nor another view brings the list or the details back.
  pub failed-shown :
      (paint : Paint) (answer : Option (List Workflow)) (msgs : List (Option (List Workflow) × Msg))
      (m : Tui)
      → (let m' = run msgs (update ui answer load_failed m).tui in
          view paint m' ≡ head_line paint m' ++ ("Error: " ++ (paint.shown_error ++ "\n")))
  unfolding view update
  failed-shown paint answer msgs m = rw (run-err msgs (record m { err = true }) refl) refl
