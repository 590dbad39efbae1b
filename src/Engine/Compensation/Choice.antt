-- ===== src/Engine/Compensation/Choice.antt =====
-- What `determineNextCompensation` chooses, against a description that reads each activity once.
use flowscale.Prelude.{
  ◌≡◌, refl, sym, ◌∙◌, inl, inr, Bool, true, false, Bool-cases, not, ◌&&◌, ◌||◌, Option, none, some,
  List, [], ◌∷◌, ◌++◌, reverse, String, any, ◌==◌, arith, if◌then◌else◌, append_assoc, append-nil,
}
use flowscale.Models.{ActivityExecution, Activity, Workflow, is_completed, is_failed}
use flowscale.Engine.Compensation.{
  is_normal, step_named, Done, note, collect, is_member, undo_step, or_else, scan,
  determine_next_compensation,
}
use mathlib.Core.List.{reverse_aux-eq}

-- A compensation that has run: an activity that ended and that is no step of the definition.
abbrev pub has_run : Workflow → ActivityExecution → Bool
has_run wf a = (is_completed a.status || is_failed a.status) && not (is_normal wf a.activity_name)

unfoldable pub tried : Workflow → List ActivityExecution → String → Bool
tried wf acts name = any (λ a. has_run wf a && a.activity_name == name) acts

-- A step that is done.
abbrev pub is_done : Workflow → ActivityExecution → Bool
is_done wf a = is_completed a.status && is_normal wf a.activity_name

-- The compensation of a step, unless it names none or that one has run.
unfoldable pub undo_of : Workflow → List ActivityExecution → Option Activity → Option Activity
undo_of wf acts none = none
undo_of wf acts (some wa) =
    if wa.compensation == "" || tried wf acts wa.compensation
    then none
    else some record {
      name = wa.compensation;
      compensation = "";
      retry_policy = wa.retry_policy;
      timeout = wa.timeout;
    }

-- What an activity still needs, among all activities of its execution.
unfoldable pub to_undo : Workflow → List ActivityExecution → ActivityExecution → Option Activity
to_undo wf acts a = if is_done wf a then undo_of wf acts (step_named wf a.activity_name) else none

-- What `f` gives for the last element that it gives something for.
unfoldable pub last_some : {A B : Type 0} → (A → Option B) → List A → Option B
last_some f [] = none
last_some f (x ∷ xs) = or_else (last_some f xs) (f x)

-- The first loop: the steps that are done, and the names of the compensations that have run.
done_of : Workflow → List ActivityExecution → List ActivityExecution
done_of wf [] = []
done_of wf (a ∷ acts) = let rest = done_of wf acts in if is_done wf a then a ∷ rest else rest

normals-note :
    (wf : Workflow) (a : ActivityExecution) (done : Done)
    → (note wf a done).normals ≡ (if is_done wf a then done.normals ++ a ∷ [] else done.normals)
normals-note wf a done = ground arith

comps-note :
    (wf : Workflow) (a : ActivityExecution) (done : Done) (name : String)
    → is_member name (note wf a done).comps
      ≡ ((has_run wf a && a.activity_name == name) || is_member name done.comps)
unfolding any
comps-note wf a done name = ground arith

normals-collect :
    (wf : Workflow) (acts : List ActivityExecution) (done : Done)
    → (collect wf acts done).normals ≡ done.normals ++ done_of wf acts
unfolding collect done_of
normals-collect wf [] done = sym (append-nil done.normals)
normals-collect wf (a ∷ acts) done = elim (Bool-cases (is_done wf a)) [
  | inl e ↦
      rw (e, normals-collect wf acts (note wf a done), normals-note wf a done, e)
        (append_assoc done.normals (a ∷ []) (done_of wf acts))
  | inr e ↦ rw (e, normals-collect wf acts (note wf a done), normals-note wf a done, e) refl
]

comps-collect :
    (wf : Workflow) (acts : List ActivityExecution) (done : Done) (name : String)
    → is_member name (collect wf acts done).comps
      ≡ (tried wf acts name || is_member name done.comps)
unfolding collect tried any
comps-collect wf [] done name = refl
comps-collect wf (a ∷ acts) done name =
    ground (arith, comps-collect wf acts (note wf a done) name, comps-note wf a done name)

scan-append :
    (wf : Workflow) (comps : List String) (xs ys : List ActivityExecution)
    → scan wf comps (xs ++ ys) ≡ or_else (scan wf comps xs) (scan wf comps ys)
unfolding scan
scan-append wf comps [] ys = refl
scan-append wf comps (x ∷ xs) ys =
    rw (scan-append wf comps xs ys)
      (or_else_assoc (undo_step comps (step_named wf x.activity_name)) _ _)
  where
    or_else_assoc : (a b c : Option Activity) → or_else a (or_else b c) ≡ or_else (or_else a b) c
    or_else_assoc none b c = refl
    or_else_assoc (some x) b c = refl

or_else-none : (o : Option Activity) → or_else o none ≡ o
or_else-none none = refl
or_else-none (some x) = refl

undo_of-undo :
    (wf : Workflow) (comps : List String) (acts : List ActivityExecution) (o : Option Activity)
    → ((name : String) → is_member name comps ≡ tried wf acts name)
    → undo_step comps o ≡ undo_of wf acts o
unfolding undo_of
undo_of-undo wf comps acts none h = refl
undo_of-undo wf comps acts (some wa) h = ground (arith, h wa.compensation)

scan-last_some :
    (wf : Workflow) (comps : List String) (all acts : List ActivityExecution)
    → ((name : String) → is_member name comps ≡ tried wf all name)
    → scan wf comps (reverse (done_of wf acts)) ≡ last_some (to_undo wf all) acts
unfolding scan last_some to_undo done_of
scan-last_some wf comps all [] h = refl
scan-last_some wf comps all (a ∷ acts) h = elim (Bool-cases (is_done wf a)) [
  | inl e ↦
      rw
        (
          e,
          reverse_aux-eq (done_of wf acts) (a ∷ []),
          scan-append,
          scan-last_some wf comps all acts h,
          ← undo_of-undo wf comps all (step_named wf a.activity_name) h,
          or_else-none,
        )
        refl
  | inr e ↦ rw (e, or_else-none) (scan-last_some wf comps all acts h)
]

-- The choice is what the last activity of the list that still needs to be undone needs: a
-- completed step of the definition whose compensation is named and has not run.
pub determine_next_compensation-last_some :
    (wf : Workflow) (acts : List ActivityExecution)
    → determine_next_compensation wf acts ≡ last_some (to_undo wf acts) acts
unfolding determine_next_compensation any
determine_next_compensation-last_some wf acts =
    let start : Done = record { normals = []; comps = [] } in
    rw (normals-collect wf acts start) (
      scan-last_some wf (collect wf acts start).comps acts acts
        (λ name. comps-collect wf acts start name ∙ no_more (tried wf acts name)))
  where
    no_more : (b : Bool) → (b || false) ≡ b
    no_more true = refl
    no_more false = refl
