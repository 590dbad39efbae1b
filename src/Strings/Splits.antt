-- ===== src/Strings/Splits.antt =====
-- Splitting and cutting a text at a separator that its parts do not hold.
use Prim.Native.Char.{Char, code}
use Prim.Native.String.{String, [], ◌∷◌, ◌++◌}
use text.Mathlib.TextLemmas.{nil-append, cons-append}
use flowscale.Prelude.{
  ℕ, ◌≡◌, refl, ◌≢◌, Bool-cases, subst, inl, inr, arith, List, [], ◌∷◌, true, false, none,
  Option-cases, if◌then◌else◌,
}
use flowscale.Strings.{eqb, cut_suffix, split, before, behind, onto_first}
use flowscale.Strings.Laws.{cut_suffix-eq}

-- No character of the text has this code.
abbrev pub NoChar : ℕ → String → Type 0
NoChar sep [] = Unit
NoChar sep (c ∷ s) = (eqb (code c) sep ≡ false) × NoChar sep s

pub NoChar-append : (sep : ℕ) (s t : String) → NoChar sep s → NoChar sep t → NoChar sep (s ++ t)
NoChar-append sep [] t h k = rw nil-append k
NoChar-append sep (c ∷ s) t h k = rw cons-append (h.0, NoChar-append sep s t h.1 k)

pub split-NoChar : (sep : ℕ) (s : String) → NoChar sep s → split s sep ≡ s ∷ []
unfolding split
split-NoChar sep [] h = refl
split-NoChar sep (c ∷ s) h = rw (h.0, split-NoChar sep s h.1) refl

pub split-append :
    (sep : ℕ) (s : String) (c : Char) (t : String)
    → NoChar sep s
    → eqb (code c) sep ≡ true
    → split (s ++ (c ∷ t)) sep ≡ s ∷ split t sep
unfolding split
split-append sep [] c t h k = rw (nil-append, k) refl
split-append sep (d ∷ s) c t h k = rw (cons-append, h.0, split-append sep s c t h.1 k) refl

pub before-NoChar : (sep : ℕ) (s : String) → NoChar sep s → before s sep ≡ s
unfolding before
before-NoChar sep [] h = refl
before-NoChar sep (c ∷ s) h = rw (h.0, before-NoChar sep s h.1) refl

pub behind-NoChar : (sep : ℕ) (s : String) → NoChar sep s → behind s sep ≡ ""
unfolding behind
behind-NoChar sep [] h = refl
behind-NoChar sep (c ∷ s) h = rw (h.0, behind-NoChar sep s h.1) refl

pub before-append :
    (sep : ℕ) (s : String) (c : Char) (t : String)
    → NoChar sep s
    → eqb (code c) sep ≡ true
    → before (s ++ (c ∷ t)) sep ≡ s
unfolding before
before-append sep [] c t h k = rw (nil-append, k) refl
before-append sep (d ∷ s) c t h k = rw (cons-append, h.0, before-append sep s c t h.1 k) refl

pub behind-append :
    (sep : ℕ) (s : String) (c : Char) (t : String)
    → NoChar sep s
    → eqb (code c) sep ≡ true
    → behind (s ++ (c ∷ t)) sep ≡ t
unfolding behind
behind-append sep [] c t h k = rw (nil-append, k) refl
behind-append sep (d ∷ s) c t h k = rw (cons-append, h.0, behind-append sep s c t h.1 k) refl

NoChar-clash :
    (sep : ℕ) (r : String) (c : Char) (q : String)
    → eqb (code c) sep ≡ true
    → NoChar sep (r ++ (c ∷ q))
    → ⊥
NoChar-clash sep [] c q k h = ground (arith, k, (subst (NoChar sep) (nil-append (c ∷ q)) h).0)
NoChar-clash sep (d ∷ r) c q k h =
    NoChar-clash sep r c q k (subst (NoChar sep) (cons-append d r (c ∷ q)) h).1

-- A text without the separator has no suffix that begins with it.
pub cut_suffix-NoChar :
    (sep : ℕ) (s : String) (c : Char) (q : String)
    → NoChar sep s
    → eqb (code c) sep ≡ true
    → cut_suffix s (c ∷ q) ≡ none
cut_suffix-NoChar sep s c q h k = elim (Option-cases (cut_suffix s (c ∷ q))) [
  | inl e ↦ e
  | inr (r, e) ↦ elim (NoChar-clash sep r c q k (subst (NoChar sep) (cut_suffix-eq s _ r e) h)) [ ]
]

-- The parts of two texts joined: the last of the one and the first of the other are one part.
abbrev pub weld : List String → List String → List String
weld [] ys = ys
weld (a ∷ []) [] = a ∷ []
weld (a ∷ []) (y ∷ ys) = (a ++ y) ∷ ys
weld (a ∷ b ∷ more) ys = a ∷ weld (b ∷ more) ys

onto_first-weld :
    (c : Char) (ps qs : List String)
    → ps ≢ []
    → onto_first c (weld ps qs) ≡ weld (onto_first c ps) qs
onto_first-weld c [] qs ne = elim (ne refl) [ ]
onto_first-weld c (a ∷ []) [] ne = refl
onto_first-weld c (a ∷ []) (y ∷ ys) ne = rw cons-append refl
onto_first-weld c (a ∷ b ∷ more) qs ne = refl

weld-empty : (ps qs : List String) → ps ≢ [] → weld ("" ∷ ps) qs ≡ "" ∷ weld ps qs
weld-empty [] qs ne = elim (ne refl) [ ]
weld-empty (a ∷ more) qs ne = refl

cons_ne : (p : String) (ps : List String) → ◌≡◌ {A = List String} (p ∷ ps) [] → ⊥
cons_ne p ps e = cc

onto_first-ne : (c : Char) (ps : List String) → onto_first c ps ≢ []
onto_first-ne c [] e = cc
onto_first-ne c (p ∷ ps) e = cc

weld_nil : (ys : List String) → ys ≢ [] → weld ("" ∷ []) ys ≡ ys
weld_nil [] ne = elim (ne refl) [ ]
weld_nil (y ∷ ys) ne = rw nil-append refl

split-ne : (s : String) (sep : ℕ) → split s sep ≢ []
unfolding split
split-ne [] sep e = cc
split-ne (c ∷ s) sep e = elim (Bool-cases (eqb (code c) sep)) [
  | inl q ↦
      cons_ne "" (split s sep)
        (subst (λ b. (if b then "" ∷ split s sep else onto_first c (split s sep)) ≡ []) q e)
  | inr q ↦
      onto_first-ne c (split s sep)
        (subst (λ b. (if b then "" ∷ split s sep else onto_first c (split s sep)) ≡ []) q e)
]

pub split-weld : (sep : ℕ) (s t : String) → split (s ++ t) sep ≡ weld (split s sep) (split t sep)
unfolding split
split-weld sep [] t = rw (nil-append, weld_nil (split t sep) (split-ne t sep)) refl
split-weld sep (c ∷ s) t = elim (Bool-cases (eqb (code c) sep)) [
  | inl e ↦
      rw
        (
          cons-append,
          e,
          weld-empty (split s sep) (split t sep) (split-ne s sep),
          split-weld sep s t,
        )
        refl
  | inr e ↦
      rw
        (
          cons-append,
          e,
          split-weld sep s t,
          onto_first-weld c (split s sep) (split t sep) (split-ne s sep),
        )
        refl
]
