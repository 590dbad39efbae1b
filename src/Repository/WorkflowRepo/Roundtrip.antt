-- ===== src/Repository/WorkflowRepo/Roundtrip.antt =====
-- A definition that CreateWorkflow has stored is what GetWorkflow returns.
use flowscale.Prelude.Predicates.{All}
use flowscale.Prelude.{
  ℕ, zero, suc, ◌≡◌, refl, sym, ap, ◌∙◌, Bool, true, false, Option, none, some, List, [], ◌∷◌, ◌++◌,
  append_assoc, append-nil, map, String, ◌==◌, eq_iff, eq_refl, arith, leb, select, sort_by,
  insert_sorted, any, find,
}
use flowscale.Models.{ℤ, pos, RetryPolicy, Activity, Workflow}
use flowscale.Runtime.{
  Env, Db, WorkflowRow, ActivityRow, World, Result, ok, err, tx, tick, attempt_commit,
}
use flowscale.Repository.Sql.{has_workflow_id}
use flowscale.Repository.WorkflowRepo.{
  null_if_empty, null_unless_positive, or_empty, activity_row, to_activity, insert_activity_row,
  insert_activities, insert_workflow, create_workflow, steps_of, find_workflow,
}
use flowscale.Engine.Stable.Writes.{>>=-eq-ok}

-- A coefficient that is not negative; a negative one is stored as NULL.
abbrev pub IsStorable : Activity → Type 0
IsStorable a =
    (p : RetryPolicy) → a.retry_policy ≡ some p → (n : ℕ) × (p.backoff_coefficient ≡ pos n)

or_empty-null : (s : String) → or_empty (null_if_empty s) ≡ s
or_empty-null s = ground (arith, eq_iff s "")

back_coefficient :
    (n : ℕ) → elim (null_unless_positive (pos n)) as (λ x. ℤ) [ none ↦ pos 0 | some c ↦ c ] ≡ pos n
back_coefficient zero = refl
back_coefficient (suc n) = ground arith

back_policy :
    (id : String) (i : ℕ) (a : Activity) (o : Option RetryPolicy)
    → a.retry_policy ≡ o
    → IsStorable a
    → (to_activity (activity_row id i a)).retry_policy ≡ o
unfolding to_activity activity_row
back_policy id i a none e h = rw e refl
back_policy id i a (some p) e h =
    let (n, c) = h p e in
    rw e (ground (arith, or_empty-null p.initial_interval, c, back_coefficient n))

to_activity-row :
    (id : String) (i : ℕ) (a : Activity) → IsStorable a → to_activity (activity_row id i a) ≡ a
unfolding to_activity activity_row
to_activity-row id i a h =
    rw
      (
        or_empty-null a.compensation,
        or_empty-null a.timeout,
        back_policy id i a a.retry_policy refl h,
      )
      refl

-- The rows of the steps, from position `i` on.
rows_of : String → ℕ → List Activity → List ActivityRow
rows_of id i [] = []
rows_of id i (a ∷ acts) = activity_row id i a ∷ rows_of id (suc i) acts

map-rows_of :
    (id : String) (i : ℕ) (acts : List Activity)
    → All IsStorable acts
    → map to_activity (rows_of id i acts) ≡ acts
unfolding rows_of
map-rows_of id i [] h = refl
map-rows_of id i (a ∷ acts) h =
    rw (to_activity-row id i a h.0, map-rows_of id (suc i) acts h.1) refl

select-rows_of :
    (id : String) (i : ℕ) (acts : List Activity)
    → select (λ row. row.workflow_id == id) (rows_of id i acts) ≡ rows_of id i acts
unfolding select rows_of activity_row
select-rows_of id i [] = refl
select-rows_of id i (a ∷ acts) = rw (eq_refl id, select-rows_of id (suc i) acts) refl

select-append :
    {A : Type 0} (p : A → Bool) (xs ys : List A) → select p (xs ++ ys) ≡ select p xs ++ select p ys
unfolding select
select-append p [] ys = refl
select-append p (x ∷ xs) ys = ground (arith, select-append p xs ys)

insert-rows_of :
    (id : String) (i : ℕ) (a : Activity) (acts : List Activity)
    → insert_sorted
        (λ a b. leb a.position b.position)
        (activity_row id i a)
        (rows_of id (suc i) acts)
      ≡ activity_row id i a ∷ rows_of id (suc i) acts
unfolding insert_sorted rows_of activity_row
insert-rows_of id i a [] = refl
insert-rows_of id i a (b ∷ acts) = ground arith

sort-rows_of :
    (id : String) (i : ℕ) (acts : List Activity)
    → sort_by (λ a b. leb a.position b.position) (rows_of id i acts) ≡ rows_of id i acts
unfolding sort_by rows_of
sort-rows_of id i [] = refl
sort-rows_of id i (a ∷ acts) = rw (sort-rows_of id (suc i) acts) (insert-rows_of id i a acts)

-- What the inserts of the steps have done.
record Stored (id : String) (i : ℕ) (acts : List Activity) (db db' : Db) : Type 0 where
  same_workflows : db'.workflows ≡ db.workflows
  appended : db'.activities ≡ db.activities ++ rows_of id i acts

insert_activity_row-appended :
    (row : ActivityRow) (db db' : Db)
    → insert_activity_row row db ≡ ok db'
    → (db'.workflows ≡ db.workflows) × (db'.activities ≡ db.activities ++ row ∷ [])
unfolding insert_activity_row
insert_activity_row-appended row db db' h = ground arith

insert_activities-Stored :
    (id : String) (i : ℕ) (acts : List Activity) (db db' : Db)
    → insert_activities id i acts db ≡ ok db'
    → Stored id i acts db db'
unfolding insert_activities rows_of
insert_activities-Stored id i [] db db' h =
    let e : db ≡ db' = ok-injective h in
    record { same_workflows = rw e refl; appended = rw e (sym (append-nil db'.activities)) }
  where
    ok-injective : {a b : Db} → ok a ≡ ok b → a ≡ b
    ok-injective h = cc
insert_activities-Stored id i (a ∷ acts) db db' h =
    let (db₁, p, q) = >>=-eq-ok (insert_activity_row (activity_row id i a) db) _ h in
    let (w, r) = insert_activity_row-appended _ db db₁ p in
    let s = insert_activities-Stored id (suc i) acts db₁ db' q in
    record {
      same_workflows = s.same_workflows ∙ w;
      appended =
          s.appended
          ∙ ap (λ x. x ++ rows_of id (suc i) acts) r
          ∙ append_assoc db.activities (activity_row id i a ∷ []) (rows_of id (suc i) acts);
    }

find-append_new :
    {A : Type 0} (p : A → Bool) (xs : List A) (y : A)
    → any p xs ≡ false
    → p y ≡ true
    → find p (xs ++ y ∷ []) ≡ some y
unfolding find any
find-append_new p [] y h e = rw e refl
find-append_new p (x ∷ xs) y h e = ground (arith, find-append_new p xs y)

abbrev new_row : ℕ → String → String → WorkflowRow
new_row now id name = record { id = id; name = name; created_at = now; updated_at = now }

insert_workflow-inserted :
    (now : ℕ) (id name : String) (db db' : Db)
    → insert_workflow now id name db ≡ ok db'
    → (any (has_workflow_id id) db.workflows ≡ false)
      × (db' ≡ record db { workflows = db.workflows ++ new_row now id name ∷ [] })
unfolding insert_workflow
insert_workflow-inserted now id name db db' h = ground arith

-- The tables after a CreateWorkflow that succeeds.
stored :
    (now : ℕ) (wf : Workflow) (db db' : Db)
    → (flowscale.Repository.Sql.◌>>=◌
        (insert_workflow now wf.id wf.name db)
        (insert_activities wf.id 0 wf.activities))
      ≡ ok db'
    → select (λ row. row.workflow_id == wf.id) db.activities ≡ []
    → All IsStorable wf.activities
    → (find (has_workflow_id wf.id) db'.workflows ≡ some (new_row now wf.id wf.name))
      × (steps_of wf.id db'.activities ≡ wf.activities)
stored now wf db db' h none_there plain =
    let (db₁, p, q) = >>=-eq-ok (insert_workflow now wf.id wf.name db) _ h in
    let (fresh, r) = insert_workflow-inserted now wf.id wf.name db db₁ p in
    let s = insert_activities-Stored wf.id 0 wf.activities db₁ db' q in
    (
      ap (find (has_workflow_id wf.id)) (s.same_workflows ∙ ap (λ d. d.workflows) r)
          ∙ find-append_new (has_workflow_id wf.id) db.workflows (new_row now wf.id wf.name) fresh
              (eq_refl wf.id),
      ap (steps_of wf.id) (s.appended ∙ ap (λ d. d.activities ++ rows_of wf.id 0 wf.activities) r)
          ∙ steps_back,
    )
  where
    steps_back : steps_of wf.id (db.activities ++ rows_of wf.id 0 wf.activities) ≡ wf.activities
    steps_back =
        rw
          (
            select-append (λ row. row.workflow_id == wf.id) db.activities
                (rows_of wf.id 0 wf.activities),
            none_there,
            select-rows_of wf.id 0 wf.activities,
            sort-rows_of wf.id 0 wf.activities,
          )
          (map-rows_of wf.id 0 wf.activities plain)

tx-ok :
    (env : Env) (body : ℕ → Db → Result Db) (w : World)
    → (tx env body w).0 ≡ ok tt
    → body (env.now w.calls) w.db ≡ ok (tx env body w).1.db
unfolding tx
tx-ok env body w h = go (env.db_fails w.calls) (body (env.now w.calls) w.db) h
  where
    go :
        (down : Bool) (r : Result Db)
        → (attempt_commit down r (tick w)).0 ≡ ok tt
        → r ≡ ok (attempt_commit down r (tick w)).1.db
    go true r h = cc
    go false (ok db) h = refl
    go false (err e) h = cc

-- A workflow that CreateWorkflow has stored is found with its name and its steps in their order, if
-- no backoff coefficient is negative; its times are those of the INSERT. No step may be left of a
-- workflow of the same id, which the foreign key excludes.
pub create_workflow-find_workflow :
    (env : Env) (wf : Workflow) (w : World)
    → (create_workflow env wf w).0 ≡ ok tt
    → select (λ row. row.workflow_id == wf.id) w.db.activities ≡ []
    → All IsStorable wf.activities
    → find_workflow wf.id (create_workflow env wf w).1.db
      ≡ ok (record wf { created_at = env.now w.calls; updated_at = env.now w.calls })
unfolding create_workflow find_workflow
create_workflow-find_workflow env wf w done none_there plain =
    let (row, steps) = stored (env.now w.calls) wf w.db _ (tx-ok env _ w done) none_there plain in
    rw (row, steps) refl
