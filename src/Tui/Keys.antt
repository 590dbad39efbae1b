-- ===== src/Tui/Keys.antt =====
-- What a message may do: the calls that a key makes, and the columns that are shown.
use flowscale.Prelude.Predicates.{All, All-map}
use flowscale.Prelude.{
  ℕ, zero, suc, ◌≡◌, refl, String, Option, none, some, List, [], ◌∷◌, Bool, true, false, not, inl,
  inr, Bool-cases, ◌==◌, ◌||◌, ◌&&◌, arith, if◌then◌else◌,
}
use flowscale.Models.{Workflow}
use flowscale.Tui.{
  ViewState, view_executions, view_workflows, view_dlq, view_compensation, view_schedules,
  view_detail, columns_for, Row, Tui, Widgets, quit, blink, Msg, window_size, shipment_status,
  load_failed, loaded, key, ApiCall, retry_dlq, retry_compensation, cancel_execution,
  delete_schedule, pause_schedule, resume_schedule, start_workflow, set_shipment_status, post_seed,
  list_workflows, create_schedule, Step, step, load, selected_row, cell, enter_view, show_view,
  pass, call_row, on_selected, parse_filter, filter_key, detail_key, retry_key, is_executions,
  is_schedules, is_workflows, times, new_key, enter_row, enter_selected, enter_key, toggle_key,
  late_key, middle_key, list_key, is_detail, show_loaded, update,
}

-- The id is the first cell of the selected row.
abbrev pub IsSelected : Tui → String → Type 0
IsSelected m id = (row : Row) × (selected_row m ≡ some row) × (id ≡ cell 0 row)

-- The view that a call belongs to, and the id that it may name.
abbrev pub InView : Tui → ApiCall → Type 0
InView m (retry_dlq id) = (m.state ≡ view_dlq) × IsSelected m id
InView m (retry_compensation id) = (m.state ≡ view_compensation) × IsSelected m id
InView m (cancel_execution id) = (m.state ≡ view_executions) × IsSelected m id
InView m (delete_schedule id) = (m.state ≡ view_schedules) × IsSelected m id
InView m (pause_schedule id) = (m.state ≡ view_schedules) × IsSelected m id
InView m (resume_schedule id) = (m.state ≡ view_schedules) × IsSelected m id
InView m (start_workflow id) = (m.state ≡ view_workflows) × IsSelected m id
InView m (set_shipment_status b) = b ≡ not m.shipment_down
InView m post_seed = m.state ≡ view_workflows
InView m list_workflows = m.state ≡ view_schedules
InView m (create_schedule s) = m.state ≡ view_schedules

-- Neither a filter is typed nor are the details open.
abbrev pub Open : Tui → Type 0
Open m = (m.is_filtering ≡ false) × (is_detail m.state ≡ false)

abbrev pub Allowed : Tui → ApiCall → Type 0
Allowed m c = Open m × InView m c

-- The columns are those of the view, where the view has columns of its own.
abbrev pub Shown : Tui → Type 0
Shown m = (cs : List String) → columns_for m.state ≡ some cs → m.columns ≡ cs

record Sound (m : Tui) (s : Step) : Type 0 where
  allowed : All (InView m) s.calls
  shown : Shown m → Shown s.tui

-- A step that makes no call and leaves the view and its columns.
Sound-still :
    (m : Tui) (s : Step)
    → s.calls ≡ []
    → s.tui.state ≡ m.state
    → s.tui.columns ≡ m.columns
    → Sound m s
Sound-still m s c e f = record { allowed = rw c tt; shown = λ h cs q. rw f (h cs (rw (← e) q)) }

Sound-if :
    (m : Tui) (b : Bool) (s t : Step)
    → (b ≡ true → Sound m s)
    → (b ≡ false → Sound m t)
    → Sound m (if b then s else t)
Sound-if m true s t f g = f refl
Sound-if m false s t f g = g refl

Sound-when :
    (m : Tui) (b : Bool) (s t : Step)
    → (b ≡ true → Sound m s)
    → Sound m t
    → Sound m (if b then s else t)
Sound-when m b s t f g = Sound-if m b s t f (λ e. g)

enter_view-Shown : (ui : Widgets) (s : ViewState) (m : Tui) → Shown (enter_view ui s m)
unfolding enter_view
enter_view-Shown ui s m cs q = rw q refl

is_executions-eq : (s : ViewState) → is_executions s ≡ true → s ≡ view_executions
is_executions-eq s h = ground (arith, h)

is_schedules-eq : (s : ViewState) → is_schedules s ≡ true → s ≡ view_schedules
is_schedules-eq s h = ground (arith, h)

is_workflows-eq : (s : ViewState) → is_workflows s ≡ true → s ≡ view_workflows
is_workflows-eq s h = ground (arith, h)

parse_filter-state : (val : String) (n : Tui) → (parse_filter val n).state ≡ n.state
unfolding parse_filter
parse_filter-state val n = ground arith

parse_filter-columns : (val : String) (n : Tui) → (parse_filter val n).columns ≡ n.columns
unfolding parse_filter
parse_filter-columns val n = ground arith

and-right : (b c : Bool) → (b && c) ≡ true → c ≡ true
and-right true c h = h
and-right false c h = ground (arith, h)

module _ (ui : Widgets) (m : Tui) where
  pass-Sound : (k : String) → Sound m (pass ui k m)
  unfolding pass
  pass-Sound k = record { allowed = tt; shown = λ h. h }

  show_view-Sound :
      (s : ViewState) (calls : List ApiCall)
      → All (InView m) calls
      → Sound m (show_view ui s calls m)
  show_view-Sound s calls a = record { allowed = a; shown = λ h. enter_view-Shown ui s m }

  call_row-Sound :
      (f : String → List ApiCall) (k : String) (o : Option Row)
      → selected_row m ≡ o
      → ((id : String) → IsSelected m id → All (InView m) (f id))
      → Sound m (call_row ui f k m o)
  call_row-Sound f k none e a = pass-Sound k
  call_row-Sound f k (some row) e a = record {
    allowed = a (cell 0 row) (row, e, refl);
    shown = λ h. h;
  }

  on_selected-Sound :
      (f : String → List ApiCall) (k : String)
      → ((id : String) → IsSelected m id → All (InView m) (f id))
      → Sound m (on_selected ui f k m)
  unfolding on_selected
  on_selected-Sound f k a = call_row-Sound f k (selected_row m) refl a

  times-InView : (n : ℕ) (c : ApiCall) → InView m c → All (InView m) (times n c)
  times-InView zero c a = tt
  times-InView (suc n) c a = (a, times-InView n c a)

  retry_key-Sound : (s : ViewState) → m.state ≡ s → Sound m (retry_key ui s m)
  unfolding retry_key
  retry_key-Sound view_dlq e = on_selected-Sound _ "r" (λ id h. ((e, h), tt))
  retry_key-Sound view_compensation e = on_selected-Sound _ "r" (λ id h. ((e, h), tt))
  retry_key-Sound view_executions e = pass-Sound "r"
  retry_key-Sound view_workflows e = pass-Sound "r"
  retry_key-Sound view_schedules e = pass-Sound "r"
  retry_key-Sound view_detail e = pass-Sound "r"

  new_key-Sound : (o : Option (List Workflow)) → m.state ≡ view_schedules → Sound m (new_key ui o m)
  unfolding new_key pass
  new_key-Sound none e = record { allowed = (e, tt); shown = λ h. h }
  new_key-Sound (some wfs) e =
      Sound-if m _ _ _ (λ q. record { allowed = (e, tt); shown = λ h. h })
        (λ q. record { allowed = (e, (e, tt)); shown = λ h. h })

  enter_row-Sound :
      (s : ViewState) (row : Row)
      → m.state ≡ s
      → selected_row m ≡ some row
      → Sound m (enter_row ui s m row)
  unfolding columns_for
  enter_row-Sound view_workflows row e r =
      show_view-Sound view_executions _ ((e, (row, r, refl)), tt)
  enter_row-Sound view_schedules row e r = pass-Sound "enter"
  enter_row-Sound view_detail row e r = pass-Sound "enter"
  enter_row-Sound view_executions row e r = record {
    allowed = tt;
    shown = λ h cs q. ground (arith, q);
  }
  enter_row-Sound view_compensation row e r = record {
    allowed = tt;
    shown = λ h cs q. ground (arith, q);
  }
  enter_row-Sound view_dlq row e r = record { allowed = tt; shown = λ h cs q. ground (arith, q) }

  enter_selected-Sound : (o : Option Row) → selected_row m ≡ o → Sound m (enter_selected ui m o)
  enter_selected-Sound none e = pass-Sound "enter"
  enter_selected-Sound (some row) e = enter_row-Sound m.state row refl e

  detail_key-Sound : (k : String) → Sound m (detail_key ui k m)
  unfolding detail_key
  detail_key-Sound k =
      Sound-if m _ _ _ (λ q. show_view-Sound view_executions [] tt)
        (λ q. record { allowed = tt; shown = λ h. h })

  filter_key-Sound : (k : String) → Sound m (filter_key ui k m)
  unfolding filter_key
  filter_key-Sound k = elim (Bool-cases (k == "enter" || k == "esc")) [
    | inl q ↦
        let n = record m { is_filtering = false } in
        rw q (
          Sound-still m _ refl (parse_filter-state m.filter_input n)
            (parse_filter-columns m.filter_input n))
    | inr q ↦ rw q (record { allowed = tt; shown = λ h. h })
  ]

  toggle_key-Sound : Sound m (toggle_key ui m)
  unfolding toggle_key
  toggle_key-Sound = record { allowed = (refl, tt); shown = λ h. h }

  -- The keys that act on the selected row of their view.
  cancel-Sound :
      (b : Bool) (k : String)
      → (b && is_executions m.state) ≡ true
      → Sound m (on_selected ui (λ id. cancel_execution id ∷ []) k m)
  cancel-Sound b k q =
      on_selected-Sound _ k (λ id h. ((is_executions-eq m.state (and-right b _ q), h), tt))

  delete-Sound :
      (b : Bool) (k : String)
      → (b && is_schedules m.state) ≡ true
      → Sound m (on_selected ui (λ id. delete_schedule id ∷ []) k m)
  delete-Sound b k q =
      on_selected-Sound _ k (λ id h. ((is_schedules-eq m.state (and-right b _ q), h), tt))

  pause-Sound :
      (b : Bool) (k : String)
      → (b && is_schedules m.state) ≡ true
      → Sound m (on_selected ui (λ id. pause_schedule id ∷ []) k m)
  pause-Sound b k q =
      on_selected-Sound _ k (λ id h. ((is_schedules-eq m.state (and-right b _ q), h), tt))

  resume-Sound :
      (b : Bool) (k : String)
      → (b && is_schedules m.state) ≡ true
      → Sound m (on_selected ui (λ id. resume_schedule id ∷ []) k m)
  resume-Sound b k q =
      on_selected-Sound _ k (λ id h. ((is_schedules-eq m.state (and-right b _ q), h), tt))

  batch-Sound :
      (b : Bool) (k : String)
      → (b && is_workflows m.state) ≡ true
      → Sound m (on_selected ui (λ id. times 10 (start_workflow id)) k m)
  batch-Sound b k q =
      on_selected-Sound _ k
        (λ id h. times-InView 10 (start_workflow id) (is_workflows-eq m.state (and-right b _ q), h))

  seed-Sound :
      (b : Bool) → (b && is_workflows m.state) ≡ true → Sound m (step m (post_seed ∷ []) (load m))
  seed-Sound b q = record {
    allowed = (is_workflows-eq m.state (and-right b _ q), tt);
    shown = λ h. h;
  }

  new-Sound :
      (b : Bool) (answer : Option (List Workflow))
      → (b && is_schedules m.state) ≡ true
      → Sound m (new_key ui answer m)
  new-Sound b answer q = new_key-Sound answer (is_schedules-eq m.state (and-right b _ q))

  quit-Sound : Sound m (step m [] quit)
  quit-Sound = record { allowed = tt; shown = λ h. h }

  filter-Sound : Sound m (step (record m { is_filtering = true }) [] blink)
  filter-Sound = record { allowed = tt; shown = λ h. h }

  view-Sound : (s : ViewState) → Sound m (show_view ui s [] m)
  view-Sound s = show_view-Sound s [] tt

  retry-Sound : Sound m (retry_key ui m.state m)
  retry-Sound = retry_key-Sound m.state refl

  enter-Sound : Sound m (enter_key ui m)
  unfolding enter_key
  enter-Sound = enter_selected-Sound (selected_row m) refl

  late_key-Sound : (answer : Option (List Workflow)) (k : String) → Sound m (late_key ui answer k m)
  unfolding late_key
  late_key-Sound answer k = Sound-when m _ _ _ (batch-Sound (k == "B") k) (
      Sound-when m _ _ _ (pause-Sound (k == "p") k) (
        Sound-when m _ _ _ (resume-Sound (k == "m") k) (
          Sound-when m _ _ _ (new-Sound (k == "n") answer)
            (Sound-when m _ _ _ (λ q. enter-Sound) (pass-Sound k)))))

  middle_key-Sound :
      (answer : Option (List Workflow)) (k : String) → Sound m (middle_key ui answer k m)
  unfolding middle_key
  middle_key-Sound answer k =
      Sound-when m _ _ _ (λ q. retry-Sound)
        (Sound-when m _ _ _ (cancel-Sound (k == "c") k) (
          Sound-when m _ _ _ (delete-Sound (k == "d") k) (
            Sound-when m _ _ _ (λ q. toggle_key-Sound)
              (Sound-when m _ _ _ (seed-Sound (k == "g")) (late_key-Sound answer k)))))

  list_key-Sound : (answer : Option (List Workflow)) (k : String) → Sound m (list_key ui answer k m)
  unfolding list_key
  list_key-Sound answer k =
      let filtered =
        Sound-when m (k == "/" && is_executions m.state) _ _ (λ q. filter-Sound)
          (middle_key-Sound answer k) in
      Sound-when m _ _ _ (λ q. quit-Sound)
        (Sound-when m _ _ _ (λ q. view-Sound view_executions)
          (Sound-when m _ _ _ (λ q. view-Sound view_workflows)
            (Sound-when m _ _ _ (λ q. view-Sound view_dlq)
              (Sound-when m _ _ _ (λ q. view-Sound view_compensation)
                (Sound-when m _ _ _ (λ q. view-Sound view_schedules) filtered)))))

loaded-state :
    (ui : Widgets) (s : ViewState) (rows : List Row) (details : String) (m : Tui)
    → (show_loaded ui s rows details m).state ≡ m.state
loaded-state ui s rows details m = ground arith

loaded-columns :
    (ui : Widgets) (s : ViewState) (rows : List Row) (details : String) (m : Tui)
    → (show_loaded ui s rows details m).columns ≡ m.columns
loaded-columns ui s rows details m = ground arith

module _ (ui : Widgets) (answer : Option (List Workflow)) where
  update-Sound : (msg : Msg) (m : Tui) → Sound m (update ui answer msg m)
  unfolding update
  update-Sound (window_size width height) m = record { allowed = tt; shown = λ h. h }
  update-Sound (shipment_status is_down) m = record { allowed = tt; shown = λ h. h }
  update-Sound load_failed m = record { allowed = tt; shown = λ h. h }
  update-Sound (loaded s rows details) m =
      Sound-still m _ refl (loaded-state ui s rows details m) (loaded-columns ui s rows details m)
  update-Sound (key k) m =
      Sound-if m m.is_filtering _ _ (λ f. filter_key-Sound ui m k)
        (λ f.
          Sound-if m (is_detail m.state) _ _ (λ d. detail_key-Sound ui m k)
            (λ d. list_key-Sound ui m answer k))

Allowed-if :
    (m : Tui) (b : Bool) (s t : Step)
    → (b ≡ true → All (Allowed m) s.calls)
    → (b ≡ false → All (Allowed m) t.calls)
    → All (Allowed m) (if b then s else t).calls
Allowed-if m true s t f g = f refl
Allowed-if m false s t f g = g refl

filter_key-calls : (ui : Widgets) (k : String) (m : Tui) → (filter_key ui k m).calls ≡ []
unfolding filter_key
filter_key-calls ui k m = ground arith

detail_key-calls : (ui : Widgets) (k : String) (m : Tui) → (detail_key ui k m).calls ≡ []
unfolding detail_key
detail_key-calls ui k m = ground arith

-- A message makes only calls that belong to the view that is open, and a call that names an id, but
-- for the schedule of the key n, names the one in the first cell of the selected row. Nothing is
-- called while a filter is typed or while the details are open.
pub update-Allowed :
    (ui : Widgets) (answer : Option (List Workflow)) (msg : Msg) (m : Tui)
    → All (Allowed m) (update ui answer msg m).calls
unfolding update
update-Allowed ui answer (window_size width height) m = tt
update-Allowed ui answer (shipment_status is_down) m = tt
update-Allowed ui answer load_failed m = tt
update-Allowed ui answer (loaded s rows details) m = tt
update-Allowed ui answer (key k) m =
    Allowed-if m m.is_filtering _ _ (λ f. rw (filter_key-calls ui k m) tt)
      (λ f.
        Allowed-if m (is_detail m.state) _ _ (λ d. rw (detail_key-calls ui k m) tt)
          (λ d. All-map _ _ _ (λ c v. ((f, d), v)) (list_key-Sound ui m answer k).allowed))

-- Where the columns are those of the open view, they are so after any message.
pub update-Shown :
    (ui : Widgets) (answer : Option (List Workflow)) (msg : Msg) (m : Tui)
    → Shown m
    → Shown (update ui answer msg m).tui
update-Shown ui answer msg m h = (update-Sound ui answer msg m).shown h
