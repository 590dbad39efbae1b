-- ===== src/Repository/Listings/Filters.antt =====
-- What a page of executions holds: at most so many, each as the filters ask, newest first.
use flowscale.Prelude.Predicates.{
  All, All-map, All-insert_sorted, All-sort_by, All-take, Any, here, there,
}
use flowscale.Prelude.{
  ℕ, zero, suc, ◌≤◌, ◌≡◌, refl, ◌≢◌, inl, inr, Bool-cases, Option, none, some, String, List, [],
  ◌∷◌, Bool, true, false, leb, length, select, find, sort_by, insert_sorted, take, drop, ◌&&◌, ◌⊎◌,
  any, ◌==◌, arith, eq_iff,
}
use flowscale.Models.{ℤ, pos, negsuc, ExecutionStatus, status_text, WorkflowExecution}
use flowscale.Strings.{split, trim_space}
use flowscale.Runtime.{Db, WorkflowRow, ExecutionRow}
use flowscale.Repository.Sql.{has_workflow_id}
use flowscale.Repository.ExecutionQueries.{join_name}
use flowscale.Repository.Listings.{
  in_statuses, has_status, of_workflow, is_since, is_listed, add_joined, join_rows, offset_by,
  newest_first, executions_listed,
}

-- The text is the filter, or one of its parts between commas without the spaces around it.
abbrev pub IsAsked : String → String → Type 0
IsAsked status text = (text ≡ status) ⊎ Any (λ p. text ≡ trim_space p) (split status b',')

-- What the filters ask of an execution; an empty filter asks nothing.
pub record IsMatch (status workflow_id : String) (from : Option ℕ) (e : WorkflowExecution)
    : Type 0 where
  pub of_status : status ≢ "" → IsAsked status (status_text e.status)
  pub of_workflow : workflow_id ≢ "" → e.workflow_id ≡ workflow_id
  pub since : (t : ℕ) → from ≡ some t → t ≤ e.created_at

-- Each execution was created no earlier than those behind it.
abbrev pub NewestFirst : List WorkflowExecution → Type 0
NewestFirst [] = Unit
NewestFirst (e ∷ es) = All (λ f. f.created_at ≤ e.created_at) es × NewestFirst es

-- A page of at most `n` executions of the whole listing, from the offset on.
pub record IsPage (status workflow_id : String) (from : Option ℕ) (n : ℕ) (offset : ℤ)
    (whole es : List WorkflowExecution) : Type 0 where
  pub few : length es ≤ n
  pub matching : All (IsMatch status workflow_id from) es
  pub ordered : NewestFirst es
  pub behind : (k : ℕ) → offset ≡ pos k → es ≡ take n (drop k whole)
  pub ahead : (k : ℕ) → offset ≡ negsuc k → es ≡ take n whole

and-true : (b c : Bool) → (b && c) ≡ true → (b ≡ true) × (c ≡ true)
and-true true c h = (refl, h)
and-true false c h = ground (arith, h)

eq_of : (a b : String) → (a == b) ≡ true → a ≡ b
eq_of a b h = ground (arith, h, eq_iff a b)

any-trimmed :
    (text : String) (parts : List String)
    → any (λ p. text == trim_space p) parts ≡ true
    → Any (λ p. text ≡ trim_space p) parts
unfolding any
any-trimmed text [] h = ground (arith, h)
any-trimmed text (p ∷ ps) h = elim (Bool-cases (text == trim_space p)) [
  | inl q ↦ here (eq_of _ _ q)
  | inr q ↦ there (any-trimmed text ps (ground (arith, h, q)))
]

in_statuses-cases :
    (parts : List String) (status : String) (x : ExecutionStatus)
    → in_statuses parts status x ≡ true
    → (status_text x ≡ status) ⊎ Any (λ p. status_text x ≡ trim_space p) parts
in_statuses-cases [] status x h = inr (any-trimmed (status_text x) [] h)
in_statuses-cases (p ∷ []) status x h = inl (eq_of _ _ h)
in_statuses-cases (p ∷ q ∷ ps) status x h = inr (any-trimmed (status_text x) (p ∷ q ∷ ps) h)

has_status-IsAsked :
    (status : String) (x : ExecutionStatus)
    → has_status status x ≡ true
    → status ≢ ""
    → IsAsked status (status_text x)
unfolding has_status
has_status-IsAsked status x h ne = elim (Bool-cases (status == "")) [
  | inl e ↦ absurd (ne (eq_of _ _ e))
  | inr e ↦ in_statuses-cases (split status b',') status x (rw e at h)
]

module _ (status workflow_id : String) (from : Option ℕ) where
  since-le :
      (o : Option ℕ) (row : ExecutionRow) (t : ℕ)
      → is_since o row ≡ true
      → o ≡ some t
      → t ≤ row.created_at
  since-le none row t h e = ground (arith, e)
  since-le (some s) row t h e = ground (arith, h, e)

  join_name-IsMatch :
      (row : ExecutionRow) (o : Option WorkflowRow) (es : List WorkflowExecution)
      → is_listed status workflow_id from row ≡ true
      → All (IsMatch status workflow_id from) es
      → All (IsMatch status workflow_id from) (add_joined (join_name row o) es)
  unfolding is_listed of_workflow
  join_name-IsMatch row none es h k = k
  join_name-IsMatch row (some wf) es h k =
      let (first, from_ok) = and-true _ _ h in
      let (has, of) = and-true _ _ first in
      (
        record {
          of_status = has_status-IsAsked status row.status has;
          of_workflow = λ ne.
              ground (arith, of, eq_iff workflow_id "", eq_iff row.workflow_id workflow_id, ne);
          since = λ t e. since-le from row t from_ok e;
        },
        k,
      )

  listed-IsMatch :
      (wfs : List WorkflowRow) (rows : List ExecutionRow)
      → All
          (IsMatch status workflow_id from)
          (join_rows wfs (select (is_listed status workflow_id from) rows))
  unfolding join_rows select
  listed-IsMatch wfs [] = tt
  listed-IsMatch wfs (row ∷ rows) = elim (Bool-cases (is_listed status workflow_id from row)) [
    | inl e ↦ rw e (
        join_name-IsMatch row (find (has_workflow_id row.workflow_id) wfs) _ e
          (listed-IsMatch wfs rows))
    | inr e ↦ rw e (listed-IsMatch wfs rows)
  ]

All-drop :
    (P : WorkflowExecution → Type 0) (n : ℕ) (es : List WorkflowExecution)
    → All P es
    → All P (drop n es)
All-drop P zero es h = h
All-drop P (suc n) [] h = tt
All-drop P (suc n) (e ∷ es) h = All-drop P n es h.1

All-offset :
    (P : WorkflowExecution → Type 0) (z : ℤ) (es : List WorkflowExecution)
    → All P es
    → All P (offset_by z es)
All-offset P (pos n) es h = All-drop P n es h
All-offset P (negsuc n) es h = h

leb-false : (a b : ℕ) → leb a b ≡ false → b ≤ a
leb-false a b h = ground (arith, h)

leb-true : (a b : ℕ) → leb a b ≡ true → a ≤ b
leb-true a b h = ground (arith, h)

le_trans : (a b c : ℕ) → a ≤ b → b ≤ c → a ≤ c
le_trans a b c h k = omega (arith, h, k)

insert-NewestFirst :
    (e : WorkflowExecution) (es : List WorkflowExecution)
    → NewestFirst es
    → NewestFirst (insert_sorted newest_first e es)
unfolding insert_sorted
insert-NewestFirst e [] h = (tt, tt)
insert-NewestFirst e (f ∷ es) h = elim (Bool-cases (leb e.created_at f.created_at)) [
  | inl q ↦ rw q (
    All-insert_sorted (λ g. g.created_at ≤ f.created_at) newest_first e es (leb-true _ _ q) h.0,
    insert-NewestFirst e es h.1,
  )
  | inr q ↦
      let le = leb-false e.created_at f.created_at q in
      rw q
        ((le, All-map _ _ es (λ g k. le_trans g.created_at f.created_at e.created_at k le) h.0), h)
]

sort-NewestFirst : (es : List WorkflowExecution) → NewestFirst (sort_by newest_first es)
unfolding sort_by
sort-NewestFirst [] = tt
sort-NewestFirst (e ∷ es) = insert-NewestFirst e (sort_by newest_first es) (sort-NewestFirst es)

drop-NewestFirst : (n : ℕ) (es : List WorkflowExecution) → NewestFirst es → NewestFirst (drop n es)
drop-NewestFirst zero es h = h
drop-NewestFirst (suc n) [] h = tt
drop-NewestFirst (suc n) (e ∷ es) h = drop-NewestFirst n es h.1

offset-NewestFirst :
    (z : ℤ) (es : List WorkflowExecution) → NewestFirst es → NewestFirst (offset_by z es)
offset-NewestFirst (pos n) es h = drop-NewestFirst n es h
offset-NewestFirst (negsuc n) es h = h

take-NewestFirst : (n : ℕ) (es : List WorkflowExecution) → NewestFirst es → NewestFirst (take n es)
take-NewestFirst zero es h = tt
take-NewestFirst (suc n) [] h = tt
take-NewestFirst (suc n) (e ∷ es) h = (All-take _ n es h.0, take-NewestFirst n es h.1)

length-take_le : (n : ℕ) (es : List WorkflowExecution) → length (take n es) ≤ n
length-take_le zero es = omega arith
length-take_le (suc n) [] = omega arith
length-take_le (suc n) (e ∷ es) = omega (arith, length-take_le n es)

-- The executions that ListExecutions returns for a positive limit, whatever its filters and its
-- offset: no more than the limit; each has a status that the filter names, is of the workflow and
-- not older than the bound that were asked for; newest first. They are the first of those that the
-- same filters return with no limit, behind as many as the offset says, if it is positive.
pub executions_listed-IsPage :
    (status workflow_id : String) (from : Option ℕ) (n : ℕ) (offset : ℤ) (db : Db)
    → IsPage status workflow_id from
        (suc n)
        offset
        (executions_listed status workflow_id from (pos 0) (pos 0) db)
        (executions_listed status workflow_id from (pos (suc n)) offset db)
unfolding executions_listed
executions_listed-IsPage status workflow_id from n offset db =
    let rows = join_rows db.workflows (select (is_listed status workflow_id from) db.executions) in
    let page = offset_by offset (sort_by newest_first rows) in
    record {
      few = length-take_le (suc n) page;
      matching = All-take _ (suc n) page (
          All-offset _ offset (sort_by newest_first rows) (
            All-sort_by _ newest_first rows
              (listed-IsMatch status workflow_id from db.workflows db.executions)));
      ordered = take-NewestFirst (suc n) page (offset-NewestFirst offset _ (sort-NewestFirst rows));
      behind = λ k e. rw e refl;
      ahead = λ k e. rw e refl;
    }
