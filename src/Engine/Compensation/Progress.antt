-- ===== src/Engine/Compensation/Progress.antt =====
-- Each compensation that has run leaves fewer steps to undo, so the compensations come to an end.
use flowscale.Prelude.{
  ℕ, ◌+◌, ◌≤◌, ◌<◌, ◌≡◌, refl, sym, ◌∙◌, ◌≢◌, Bool, true, false, ◌&&◌, ◌||◌, Option, none, some,
  List, [], ◌∷◌, ◌++◌, String, ◌==◌, eq_iff, eq_refl, arith, if◌then◌else◌,
}
use flowscale.Prelude.Predicates.{any-append_last}
use flowscale.Models.{ActivityExecution, Activity, Workflow}
use flowscale.Engine.Compensation.{step_named, or_else, determine_next_compensation}
use flowscale.Engine.Compensation.Choice.{
  has_run, tried, undo_of, to_undo, last_some, determine_next_compensation-last_some,
}

abbrev is_some : {A : Type 0} → Option A → Bool
is_some none = false
is_some (some a) = true

-- The number of steps among `acts` that are still to be undone, given all activities `seen`.
unfoldable pub left : Workflow → List ActivityExecution → List ActivityExecution → ℕ
left wf seen [] = 0
left wf seen (a ∷ acts) = (if is_some (to_undo wf seen a) then 1 else 0) + left wf seen acts

last_some-holds :
    {A B : Type 0} (f : A → Option B) (P : B → Type 0) (xs : List A) (b : B)
    → ((x : A) (b : B) → f x ≡ some b → P b)
    → last_some f xs ≡ some b
    → P b
unfolding last_some
last_some-holds f P [] b k h = absurd (none-some h)
  where
    none-some : {B : Type 0} {b : B} → none ≢ some b
    none-some h = cc
last_some-holds {B = B} f P (x ∷ xs) b k h = go (last_some f xs) (last_some-holds f P xs b k) h
  where
    go : (o : Option B) → (o ≡ some b → P b) → or_else o (f x) ≡ some b → P b
    go none e h = k x b h
    go (some c) e h = e h

undo_of-untried :
    (wf : Workflow) (acts : List ActivityExecution) (o : Option Activity) (c : Activity)
    → undo_of wf acts o ≡ some c
    → (tried wf acts c.name ≡ false) × (c.name ≢ "")
unfolding undo_of
undo_of-untried wf acts none c h = ground arith
undo_of-untried wf acts (some wa) c h = ground (arith, eq_iff wa.compensation "")

to_undo-untried :
    (wf : Workflow) (acts : List ActivityExecution) (a : ActivityExecution) (c : Activity)
    → to_undo wf acts a ≡ some c
    → (tried wf acts c.name ≡ false) × (c.name ≢ "")
unfolding to_undo
to_undo-untried wf acts a c h =
    ground (arith, undo_of-untried wf acts (step_named wf a.activity_name) c)

-- A compensation that is chosen has a name, and has not run before.
pub determine_next_compensation-untried :
    (wf : Workflow) (acts : List ActivityExecution) (c : Activity)
    → determine_next_compensation wf acts ≡ some c
    → (tried wf acts c.name ≡ false) × (c.name ≢ "")
determine_next_compensation-untried wf acts c h =
    last_some-holds (to_undo wf acts) (λ c. (tried wf acts c.name ≡ false) × (c.name ≢ "")) acts c
      (to_undo-untried wf acts) (sym (determine_next_compensation-last_some wf acts) ∙ h)

module _ (wf : Workflow) (seen : List ActivityExecution) (b : ActivityExecution) where
  tried-append :
      (name : String)
      → tried wf (seen ++ b ∷ []) name
        ≡ (tried wf seen name || (has_run wf b && b.activity_name == name))
  unfolding tried
  tried-append name = any-append_last _ seen b

  undo_of-shrinks :
      (o : Option Activity)
      → is_some (undo_of wf (seen ++ b ∷ []) o) ≡ true
      → is_some (undo_of wf seen o) ≡ true
  unfolding undo_of
  undo_of-shrinks none h = h
  undo_of-shrinks (some wa) h = ground (arith, tried-append wa.compensation)

  to_undo-shrinks :
      (a : ActivityExecution)
      → is_some (to_undo wf (seen ++ b ∷ []) a) ≡ true
      → is_some (to_undo wf seen a) ≡ true
  unfolding to_undo
  to_undo-shrinks a h = ground (arith, undo_of-shrinks (step_named wf a.activity_name))

  left-shrinks : (acts : List ActivityExecution) → left wf (seen ++ b ∷ []) acts ≤ left wf seen acts
  unfolding left
  left-shrinks [] = omega arith
  left-shrinks (a ∷ acts) = ground (arith, left-shrinks acts, to_undo-shrinks a)

  module _ (c : Activity) (ran : has_run wf b ≡ true) (named : b.activity_name ≡ c.name) where
    undo_of-hit :
        (o : Option Activity)
        → undo_of wf seen o ≡ some c
        → is_some (undo_of wf (seen ++ b ∷ []) o) ≡ false
    unfolding undo_of
    undo_of-hit none h = refl
    undo_of-hit (some wa) h = ground (arith, tried-append wa.compensation, eq_refl wa.compensation)

    to_undo-hit :
        (a : ActivityExecution)
        → to_undo wf seen a ≡ some c
        → is_some (to_undo wf (seen ++ b ∷ []) a) ≡ false
    unfolding to_undo
    to_undo-hit a h = ground (arith, undo_of-hit (step_named wf a.activity_name))

    left-hit :
        (acts : List ActivityExecution)
        → last_some (to_undo wf seen) acts ≡ some c
        → left wf (seen ++ b ∷ []) acts < left wf seen acts
    unfolding left last_some
    left-hit [] h = ground arith
    left-hit (a ∷ acts) h =
        ground (arith, left-hit acts, left-shrinks acts, to_undo-shrinks a, to_undo-hit a)

left-append :
    (wf : Workflow) (seen acts : List ActivityExecution) (b : ActivityExecution)
    → has_run wf b ≡ true
    → left wf seen (acts ++ b ∷ []) ≡ left wf seen acts
unfolding left to_undo
left-append wf seen [] b ran = ground arith
left-append wf seen (a ∷ acts) b ran = ground (arith, left-append wf seen acts b ran)

-- Once the chosen compensation has run, with success or for good without, fewer steps are left.
pub determine_next_compensation-progress :
    (wf : Workflow) (acts : List ActivityExecution) (b : ActivityExecution) (c : Activity)
    → determine_next_compensation wf acts ≡ some c
    → has_run wf b ≡ true
    → b.activity_name ≡ c.name
    → left wf (acts ++ b ∷ []) (acts ++ b ∷ []) < left wf acts acts
determine_next_compensation-progress wf acts b c h ran named =
    rw (left-append wf (acts ++ b ∷ []) acts b ran) (
      left-hit wf acts b c ran named acts (sym (determine_next_compensation-last_some wf acts) ∙ h))
