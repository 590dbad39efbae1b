-- ===== src/Strings/Laws.antt =====
-- Prefixes and suffixes of texts that are put together from parts.
use Prim.Native.Char.{Char, code}
use Prim.Native.String.{String, [], ◌∷◌, ◌++◌}
use mathlib.Core.Option
use text.Mathlib.TextEquality.{Char-path}
use text.Mathlib.TextLemmas.{
  nil-append, cons-append, append_cancel_right, cons≢nil, head-eq_of_cons-eq, tail-eq_of_cons-eq,
}
use flowscale.Prelude.{
  ℕ, ◌≡◌, refl, sym, ap, ◌∙◌, ◌≢◌, ◌⊎◌, inl, inr, arith, Bool, true, false, Option, none, some,
  ◌==◌, eq_iff, eq_refl, Bool-cases, Option-cases, if◌then◌else◌,
}
use flowscale.Strings.{eqb, cut_prefix, cut_suffix, has_suffix}

pub eqb_refl : (n : ℕ) → eqb n n ≡ true
eqb_refl n = ground arith

pub eqb_eq : (a b : ℕ) → eqb a b ≡ true → a ≡ b
eqb_eq a b h = ground arith

pub ==-false : (s t : String) → s ≢ t → (s == t) ≡ false
==-false s t h = elim (Bool-cases (s == t)) [ inl e ↦ elim (h ((eq_iff s t).0 e)) [ ] | inr e ↦ e ]

pub cut_prefix-append : (p s : String) → cut_prefix (p ++ s) p ≡ some s
unfolding cut_prefix
cut_prefix-append [] s = rw nil-append refl
cut_prefix-append (c ∷ p) s = rw (cons-append, eqb_refl (code c)) (cut_prefix-append p s)

pub cut_prefix-eq : (s p r : String) → cut_prefix s p ≡ some r → s ≡ p ++ r
unfolding cut_prefix
cut_prefix-eq s [] r h = rw nil-append (ground arith)
cut_prefix-eq [] (d ∷ p) r h = ground arith
cut_prefix-eq (c ∷ s) (d ∷ p) r h = elim (Bool-cases (eqb (code c) (code d))) [
  | inl e ↦
      rw (cons-append, Char-path c d (eqb_eq _ _ e), cut_prefix-eq s p r (ground (arith, h, e)))
        refl
  | inr e ↦ ground (arith, h, e)
]

cut_suffix-eq_cons :
    (c : Char) (s q r : String) (o : Option String)
    → ((t : String) → o ≡ some t → s ≡ t ++ q)
    → Option.map (λ t. c ∷ t) o ≡ some r
    → c ∷ s ≡ r ++ q
cut_suffix-eq_cons c s q r none k h = ground (arith, h)
cut_suffix-eq_cons c s q r (some t) k h = ground (arith, h, k t refl, cons-append c t q)

pub cut_suffix-eq : (s q r : String) → cut_suffix s q ≡ some r → s ≡ r ++ q
unfolding cut_suffix
cut_suffix-eq [] q r h = ground (arith, h, eq_iff "" q, nil-append q)
cut_suffix-eq (c ∷ s) q r h = elim (Bool-cases ((c ∷ s) == q)) [
  | inl e ↦ ground (arith, h, e, eq_iff (c ∷ s) q, nil-append q)
  | inr e ↦ cut_suffix-eq_cons c s q r (cut_suffix s q) (cut_suffix-eq s q) (ground (arith, h, e))
]

pub cut_suffix-append : (s q : String) → cut_suffix (s ++ q) q ≡ some s
unfolding cut_suffix
cut_suffix-append [] [] = refl
cut_suffix-append [] (c ∷ q) = rw (nil-append, eq_refl (c ∷ q)) refl
cut_suffix-append (c ∷ s) q =
    rw
      (
        cons-append,
        ==-false (c ∷ (s ++ q)) q
            (λ e. cons≢nil (append_cancel_right (c ∷ s) [] q rw (cons-append, nil-append) e)),
        cut_suffix-append s q,
      )
      refl

-- A text that begins with `p` cannot have the prefix `q`, or cannot be `q`, for what `p` alone
-- shows.
unfoldable pub never_prefix : String → String → Bool
never_prefix p [] = false
never_prefix [] (d ∷ q) = false
never_prefix (c ∷ p) (d ∷ q) =
    let rest = never_prefix p q in if eqb (code c) (code d) then rest else true

unfoldable pub never_equal : String → String → Bool
never_equal [] q = false
never_equal (c ∷ p) [] = true
never_equal (c ∷ p) (d ∷ q) =
    let rest = never_equal p q in if eqb (code c) (code d) then rest else true

pub cut_prefix-never_prefix :
    (p q s : String) → never_prefix p q ≡ true → cut_prefix (p ++ s) q ≡ none
unfolding never_prefix cut_prefix
cut_prefix-never_prefix p [] s h = ground arith
cut_prefix-never_prefix [] (d ∷ q) s h = ground arith
cut_prefix-never_prefix (c ∷ p) (d ∷ q) s h =
    rw cons-append (ground (arith, h, cut_prefix-never_prefix p q s))

never_equal-ne : (p q s : String) → never_equal p q ≡ true → p ++ s ≢ q
unfolding never_equal
never_equal-ne [] q s h e = ground (arith, h)
never_equal-ne (c ∷ p) [] s h e = cons≢nil {x = c} (sym (cons-append c p s) ∙ e)
never_equal-ne (c ∷ p) (d ∷ q) s h e =
    let e' = sym (cons-append c p s) ∙ e in
    ground (
      arith,
      h,
      ap code (head-eq_of_cons-eq e'),
      eqb_refl (code d),
      never_equal-ne p q s,
      tail-eq_of_cons-eq e',
    )

pub ==-never_equal : (p q s : String) → never_equal p q ≡ true → ((p ++ s) == q) ≡ false
==-never_equal p q s h = ==-false _ _ (never_equal-ne p q s h)

-- Two suffixes of one text: the shorter is a suffix of the longer.
suffix-of_suffix :
    (s a r b : String)
    → s ++ a ≡ r ++ b
    → ((t : String) × (a ≡ t ++ b)) ⊎ ((t : String) × (b ≡ t ++ a))
suffix-of_suffix [] a r b h = inl (r, sym (nil-append a) ∙ h)
suffix-of_suffix (c ∷ s) a [] b h = inr (c ∷ s, sym (nil-append b) ∙ sym h)
suffix-of_suffix (c ∷ s) a (d ∷ r) b h =
    suffix-of_suffix s a r b (tail-eq_of_cons-eq (sym (cons-append c s a) ∙ h ∙ cons-append d r b))

-- A text that ends with `a` does not end with `b`, if neither ends with the other.
pub cut_suffix-clash :
    (s a b : String)
    → has_suffix a b ≡ false
    → has_suffix b a ≡ false
    → cut_suffix (s ++ a) b ≡ none
cut_suffix-clash s a b h k = elim (Option-cases (cut_suffix (s ++ a) b)) [
  | inl e ↦ e
  | inr (r, e) ↦ elim (suffix-of_suffix s a r b (cut_suffix-eq _ b r e)) [
    | inl (t, q) ↦ ground (arith, h, q, cut_suffix-append t b)
    | inr (t, q) ↦ ground (arith, k, q, cut_suffix-append t a)
  ]
]
