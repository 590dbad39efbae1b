-- ===== src/Engine/Compensation.antt =====
-- `determineNextCompensation` of internal/engine/engine.go: which step a failed execution undoes
-- next, from the definition and from the activities that have run.
pub mod Choice
pub mod Progress
use flowscale.Prelude.{
  String, Option, none, some, List, [], ◌∷◌, ◌++◌, Bool, true, false, reverse, any, find, ◌==◌,
  ◌||◌, ◌&&◌, not, if◌then◌else◌,
}
use flowscale.Models.{ActivityExecution, Activity, Workflow, is_completed, is_failed}

-- Whether a step of the definition has this name.
abbrev pub is_normal : Workflow → String → Bool
is_normal wf name = any (λ wa. name == wa.name) wf.activities

-- The first step of the definition that has this name.
abbrev pub step_named : Workflow → String → Option Activity
step_named wf name = find (λ wa. wa.name == name) wf.activities

-- `completedNormal`, in the order of the rows, and the keys of the map `completedComps`.
pub record Done : Type 0 where
  pub normals : List ActivityExecution
  pub comps : List String

abbrev pub note : Workflow → ActivityExecution → Done → Done
note wf a done =
    if is_completed a.status || is_failed a.status
    then (if is_normal wf a.activity_name
        then (if is_completed a.status
            then record done { normals = done.normals ++ a ∷ [] }
            else done)
        else record done { comps = a.activity_name ∷ done.comps })
    else done

-- The first loop.
unfoldable pub collect : Workflow → List ActivityExecution → Done → Done
collect wf [] done = done
collect wf (a ∷ acts) done = collect wf acts (note wf a done)

abbrev pub is_member : String → List String → Bool
is_member s names = any (λ n. n == s) names

-- The step that undoes `wa`, or `none` if it names no compensation or that has run already.
abbrev pub undo : List String → Activity → Option Activity
undo comps wa =
    if wa.compensation == ""
    then none
    else if is_member wa.compensation comps
    then none
    else some record {
      name = wa.compensation;
      compensation = "";
      retry_policy = wa.retry_policy;
      timeout = wa.timeout;
    }

abbrev pub undo_step : List String → Option Activity → Option Activity
undo_step comps none = none
undo_step comps (some wa) = undo comps wa

abbrev pub or_else : {A : Type 0} → Option A → Option A → Option A
or_else none o = o
or_else (some a) o = some a

-- The second loop, over `completedNormal` from its end.
unfoldable pub scan : Workflow → List String → List ActivityExecution → Option Activity
scan wf comps [] = none
scan wf comps (a ∷ acts) =
    or_else (undo_step comps (step_named wf a.activity_name)) (scan wf comps acts)

unfoldable pub determine_next_compensation : Workflow → List ActivityExecution → Option Activity
unfolding collect scan
determine_next_compensation wf acts =
    let done = collect wf acts (record { normals = []; comps = [] }) in
    scan wf done.comps (reverse done.normals)
