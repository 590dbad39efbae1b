-- ===== src/Prelude/Predicates.antt =====
-- Predicates on lists by recursion and as a family, and how the SQL-like operations treat them.
use mathlib.Core.Path.{◌≡◌, refl, sym, subst, ◌∙◌}
use mathlib.Core.Logic.{◌≢◌, ◌⊎◌, inl, inr}
use mathlib.Core.Bool.{Bool, true, false, ◌||◌}
use mathlib.Core.List.{List, [], ◌∷◌, ◌++◌}
use mathlib.Core.Option
use mathlib.Core.Option.{Option, none, some}
use native.Mathlib.Omega.{arith}
use Prim.Native.Nat.{ℕ, zero, suc}
use Prim.Native.String.{String}
use text.Mathlib.Text.{◌==◌}
use text.Mathlib.TextEquality.{eq_iff}
use flowscale.Prelude.Tests.{if◌then◌else◌, Bool-cases}
use flowscale.Prelude.Lists.{find, any, select, update, delete, insert_sorted, sort_by, take}

abbrev pub All {ℓ κ} : {A : Type ℓ} → (A → Type κ) → List A → Type κ
All P [] = Unit
All P (x ∷ xs) = P x × All P xs

pub data Any {ℓ κ} {A : Type ℓ} (P : A → Type κ) : List A → Type (ℓ ⊔ κ) where
  here : {x : A} {xs : List A} → P x → Any P (x ∷ xs)
  there : {x : A} {xs : List A} → Any P xs → Any P (x ∷ xs)

-- No two rows agree on the column `f`.
abbrev pub Distinct {ℓ κ} : {A : Type ℓ} {K : Type κ} → (A → K) → List A → Type κ
Distinct f [] = Unit
Distinct f (x ∷ xs) = All (λ y. f y ≢ f x) xs × Distinct f xs

module _ {A : Type 0} where
  pub All-append : (P : A → Type 0) (xs ys : List A) → All P xs → All P ys → All P (xs ++ ys)
  All-append P [] ys hx hy = hy
  All-append P (x ∷ xs) ys hx hy = (hx.0, All-append P xs ys hx.1 hy)

  pub All-map : (P R : A → Type 0) (xs : List A) → ((x : A) → P x → R x) → All P xs → All R xs
  All-map P R [] f h = tt
  All-map P R (x ∷ xs) f h = (f x h.0, All-map P R xs f h.1)

  pub All-update :
      (P : A → Type 0) (p : A → Bool) (f : A → A) (xs : List A)
      → ((x : A) → P x → P (f x))
      → All P xs
      → All P (update p f xs)
  unfolding update
  All-update P p f [] k h = tt
  All-update P p f (x ∷ xs) k h = elim (Bool-cases (p x)) [
    | inl e ↦ rw e (k x h.0, All-update P p f xs k h.1)
    | inr e ↦ rw e (h.0, All-update P p f xs k h.1)
  ]

  pub All-delete : (P : A → Type 0) (p : A → Bool) (xs : List A) → All P xs → All P (delete p xs)
  unfolding delete
  All-delete P p [] h = tt
  All-delete P p (x ∷ xs) h = elim (Bool-cases (p x)) [
    | inl e ↦ rw e (All-delete P p xs h.1)
    | inr e ↦ rw e (h.0, All-delete P p xs h.1)
  ]

  pub Any-append_left : (P : A → Type 0) (xs ys : List A) → Any P xs → Any P (xs ++ ys)
  Any-append_left P [] ys a = elim a [ ]
  Any-append_left P (x ∷ xs) ys (here h) = here h
  Any-append_left P (x ∷ xs) ys (there h) = there (Any-append_left P xs ys h)

  pub Any-append_last : (P : A → Type 0) (xs : List A) (y : A) → P y → Any P (xs ++ y ∷ [])
  Any-append_last P [] y h = here h
  Any-append_last P (x ∷ xs) y h = there (Any-append_last P xs y h)

  -- Appending a row whose column is new.
  pub Distinct-append :
      {K : Type 0} (f : A → K) (xs : List A) (y : A)
      → Distinct f xs
      → All (λ x. f x ≢ f y) xs
      → Distinct f (xs ++ y ∷ [])
  Distinct-append f [] y d n = (tt, tt)
  Distinct-append f (x ∷ xs) y d n = (
    All-append (λ z. f z ≢ f x) xs (y ∷ []) d.0 (λ e. n.0 (sym e), tt),
    Distinct-append f xs y d.1 n.1,
  )

  pub Distinct-update :
      {K : Type 0} (f : A → K) (p : A → Bool) (g : A → A) (xs : List A)
      → ((x : A) → f (g x) ≡ f x)
      → Distinct f xs
      → Distinct f (update p g xs)
  unfolding update
  Distinct-update f p g [] k d = tt
  Distinct-update f p g (x ∷ xs) k d =
      let same : f (if p x then g x else x) ≡ f x = keep (p x) in
      (
        rw same (All-update (λ y. f y ≢ f x) p g xs (λ y n e. n (sym (k y) ∙ e)) d.0),
        Distinct-update f p g xs k d.1,
      )
    where
      keep : (b : Bool) → f (if b then g x else x) ≡ f x
      keep true = k x
      keep false = refl

  pub Distinct-delete :
      {K : Type 0} (f : A → K) (p : A → Bool) (xs : List A)
      → Distinct f xs
      → Distinct f (delete p xs)
  unfolding delete
  Distinct-delete f p [] d = tt
  Distinct-delete f p (x ∷ xs) d = elim (Bool-cases (p x)) [
    | inl e ↦ rw e (Distinct-delete f p xs d.1)
    | inr e ↦ rw e (All-delete (λ y. f y ≢ f x) p xs d.0, Distinct-delete f p xs d.1)
  ]

  -- A test that fails on every row, and one that some row passes.
  pub any-false :
      (f : A → String) (k : String) (xs : List A)
      → any (λ x. f x == k) xs ≡ false
      → All (λ x. f x ≢ k) xs
  unfolding any
  any-false f k [] h = tt
  any-false f k (x ∷ xs) h = (ground (arith, eq_iff (f x) k), any-false f k xs (ground arith))

  pub any-append_last :
      (p : A → Bool) (xs : List A) (y : A) → any p (xs ++ y ∷ []) ≡ (any p xs || p y)
  unfolding any
  any-append_last p [] y = ground arith
  any-append_last p (x ∷ xs) y = ground (arith, any-append_last p xs y)

  pub any-update :
      (p q : A → Bool) (f : A → A) (xs : List A)
      → ((x : A) → p (f x) ≡ p x)
      → any p (update q f xs) ≡ any p xs
  unfolding any update
  any-update p q f [] k = refl
  any-update p q f (x ∷ xs) k = ground (arith, any-update p q f xs k, k x)

  pub find-update :
      (p : A → Bool) (q : A → Bool) (f : A → A) (xs : List A)
      → ((x : A) → p (f x) ≡ p x)
      → ((x : A) → p x ≡ true → q x ≡ false)
      → find p (update q f xs) ≡ find p xs
  unfolding find update
  find-update p q f [] k d = refl
  find-update p q f (x ∷ xs) k d = ground (arith, find-update p q f xs k d, k x, d x)

  pub find-update_same :
      (p : A → Bool) (f : A → A) (xs : List A)
      → ((x : A) → p (f x) ≡ p x)
      → find p (update p f xs) ≡ Option.map f (find p xs)
  unfolding find update
  find-update_same p f [] k = refl
  find-update_same p f (x ∷ xs) k = ground (arith, find-update_same p f xs k, k x)

  pub find-append_none :
      (p : A → Bool) (xs : List A) (y : A) → p y ≡ false → find p (xs ++ y ∷ []) ≡ find p xs
  unfolding find
  find-append_none p [] y h = rw h
  find-append_none p (x ∷ xs) y h = ground (arith, find-append_none p xs y h)

  pub any-append_known :
      (p : A → Bool) (xs : List A) (y : A) → any p xs ≡ true → any p (xs ++ y ∷ []) ≡ true
  any-append_known p xs y h = rw (any-append_last, h)

  pub All-take : (P : A → Type 0) (n : ℕ) (xs : List A) → All P xs → All P (take n xs)
  All-take P zero xs h = tt
  All-take P (suc n) [] h = tt
  All-take P (suc n) (x ∷ xs) h = (h.0, All-take P n xs h.1)

  pub All-insert_sorted :
      (P : A → Type 0) (before : A → A → Bool) (x : A) (xs : List A)
      → P x
      → All P xs
      → All P (insert_sorted before x xs)
  unfolding insert_sorted
  All-insert_sorted P before x [] p h = (p, tt)
  All-insert_sorted P before x (y ∷ ys) p h = elim (Bool-cases (before y x)) [
    | inl e ↦ rw e (h.0, All-insert_sorted P before x ys p h.1)
    | inr e ↦ rw e (p, h)
  ]

  pub All-sort_by :
      (P : A → Type 0) (before : A → A → Bool) (xs : List A) → All P xs → All P (sort_by before xs)
  unfolding sort_by
  All-sort_by P before [] h = tt
  All-sort_by P before (x ∷ xs) h =
      All-insert_sorted P before x (sort_by before xs) h.0 (All-sort_by P before xs h.1)

  -- In a column without repetitions a value tells the row.
  pub Distinct-agree :
      {K : Type 0} (f : A → K) (xs : List A)
      → Distinct f xs
      → All (λ x. All (λ y. f y ≡ f x → y ≡ x) xs) xs
  Distinct-agree f [] d = tt
  Distinct-agree f (x ∷ xs) d = (
    (λ e. refl, All-map (λ y. f y ≢ f x) _ xs (λ y n e. absurd (n e)) d.0),
    All-both f x xs xs d.0 (Distinct-agree f xs d.1),
  )
    where
      All-both :
          {K : Type 0} (f : A → K) (x : A) (xs zs : List A)
          → All (λ y. f y ≢ f x) zs
          → All (λ z. All (λ y. f y ≡ f z → y ≡ z) xs) zs
          → All (λ z. All (λ y. f y ≡ f z → y ≡ z) (x ∷ xs)) zs
      All-both f x xs [] n h = tt
      All-both f x xs (z ∷ zs) n h = ((λ e. absurd (n.0 (sym e)), h.0), All-both f x xs zs n.1 h.1)

  -- What a DELETE leaves of a row that is there: it is still there, or it was deleted.
  pub Any-delete :
      (P : A → Type 0) (p : A → Bool) (m : A) (xs : List A)
      → All (λ x. p x ≡ true → x ≡ m) xs
      → Any P xs
      → Any P (delete p xs) ⊎ P m
  unfolding delete
  Any-delete P p m [] all a = elim a [ ]
  Any-delete P p m (x ∷ xs) all (here h) = elim (Bool-cases (p x)) [
    | inl e ↦ inr (subst P (all.0 e) h)
    | inr e ↦ rw e (inl (here h))
  ]
  Any-delete P p m (x ∷ xs) all (there a) = elim (Bool-cases (p x)) [
    | inl e ↦ rw e (Any-delete P p m xs all.1 a)
    | inr e ↦ rw e (elim (Any-delete P p m xs all.1 a) [ inl b ↦ inl (there b) | inr h ↦ inr h ])
  ]

  -- What a DELETE leaves may use that it was not deleted.
  pub All-delete_kept :
      (P R : A → Type 0) (p : A → Bool) (xs : List A)
      → ((x : A) → p x ≡ false → P x → R x)
      → All P xs
      → All R (delete p xs)
  unfolding delete
  All-delete_kept P R p [] k h = tt
  All-delete_kept P R p (x ∷ xs) k h = elim (Bool-cases (p x)) [
    | inl e ↦ rw e (All-delete_kept P R p xs k h.1)
    | inr e ↦ rw e (k x e h.0, All-delete_kept P R p xs k h.1)
  ]

  pub any-delete :
      (p q : A → Bool) (xs : List A) → any p xs ≡ (any p (select q xs) || any p (delete q xs))
  unfolding any select delete
  any-delete p q [] = refl
  any-delete p q (x ∷ xs) = ground (arith, any-delete p q xs)
