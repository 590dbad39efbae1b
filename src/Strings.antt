-- ===== src/Strings.antt =====
-- The functions of Go's `strings` package that the API handlers, the middleware and the client call
-- on paths and on headers, with the subject first as in Go. A separator is the code of one
-- character, as the source splits at single characters only.
pub mod Laws
pub mod Splits
use Prim.Native.Char.{Char, code}
use Prim.Native.Nat.{compare, Ordering}
use Prim.Native.String.{String, [], ◌∷◌}
use mathlib.Core.Option
use flowscale.Models.{ℤ, pos, negsuc}
use flowscale.Prelude.{
  ℕ, zero, suc, ◌-◌, ◌*◌, ◌+◌, ◌^◌, leb, ltb, ◌&&◌, ◌||◌, Option, none, some, List, [], ◌∷◌, ◌≡◌,
  refl, Bool, true, false, ◌==◌, if◌then◌else◌,
}

abbrev pub eqb : ℕ → ℕ → Bool
eqb a b = elim (compare a b) [ Ordering.eq ↦ true | _ ↦ false ]

abbrev pub is_some {ℓ} : {A : Type ℓ} → Option A → Bool
is_some none = false
is_some (some a) = true

abbrev pub or_else {ℓ} : {A : Type ℓ} → Option A → A → A
or_else none b = b
or_else (some a) b = a

-- strings.CutPrefix
unfoldable pub cut_prefix : String → String → Option String
cut_prefix s [] = some s
cut_prefix [] (d ∷ p) = none
cut_prefix (c ∷ s) (d ∷ p) =
    let rest = cut_prefix s p in if eqb (code c) (code d) then rest else none

abbrev pub has_prefix : String → String → Bool
has_prefix s p = is_some (cut_prefix s p)

abbrev pub trim_prefix : String → String → String
trim_prefix s p = or_else (cut_prefix s p) s

-- strings.CutSuffix: the longest rest is tried first.
unfoldable pub cut_suffix : String → String → Option String
cut_suffix [] q = if "" == q then some "" else none
cut_suffix (c ∷ s) q =
    let rest = cut_suffix s q in if (c ∷ s) == q then some "" else Option.map (λ r. c ∷ r) rest

abbrev pub has_suffix : String → String → Bool
has_suffix s q = is_some (cut_suffix s q)

abbrev pub trim_suffix : String → String → String
trim_suffix s q = or_else (cut_suffix s q) s

abbrev pub onto_first : Char → List String → List String
onto_first c [] = (c ∷ []) ∷ []
onto_first c (p ∷ ps) = (c ∷ p) ∷ ps

-- strings.Split
unfoldable pub split : String → ℕ → List String
split [] sep = "" ∷ []
split (c ∷ s) sep =
    let parts = split s sep in if eqb (code c) sep then "" ∷ parts else onto_first c parts

-- strings.TrimLeftFunc and strings.TrimRightFunc
unfoldable pub trim_left : String → (ℕ → Bool) → String
trim_left [] drops = ""
trim_left (c ∷ s) drops = let rest = trim_left s drops in if drops (code c) then rest else c ∷ s

-- Nothing is kept of a tail that is dropped whole.
abbrev kept : Char → (ℕ → Bool) → String → String
kept c drops [] = if drops (code c) then "" else c ∷ []
kept c drops (d ∷ s) = c ∷ d ∷ s

unfoldable pub trim_right : String → (ℕ → Bool) → String
trim_right [] drops = ""
trim_right (c ∷ s) drops = kept c drops (trim_right s drops)

-- strings.Trim with a cutset of one character
unfoldable pub trim : String → ℕ → String
unfolding trim_left trim_right
trim s sep = trim_right (trim_left s (λ c. eqb c sep)) (λ c. eqb c sep)

-- unicode.IsSpace
abbrev is_space : ℕ → Bool
is_space c =
    leb 9 c && leb c 13
    || eqb c 32
    || eqb c 133
    || eqb c 160
    || eqb c 5760
    || leb 8192 c && leb c 8202
    || eqb c 8232
    || eqb c 8233
    || eqb c 8239
    || eqb c 8287
    || eqb c 12288

-- strings.TrimSpace
unfoldable pub trim_space : String → String
unfolding trim_left trim_right
trim_space s = trim_right (trim_left s is_space) is_space

abbrev digit : ℕ → Option ℕ
digit c = if leb 48 c && leb c 57 then some (c - 48) else none

abbrev add_digit : Option ℕ → ℕ → Option ℕ
add_digit none n = none
add_digit (some d) n = some (10 * n + d)

-- The decimal digits of a number, most significant first, behind the digits of `n`.
digits_from : Option ℕ → String → Option ℕ
digits_from n [] = n
digits_from none (c ∷ s) = none
digits_from (some n) (c ∷ s) = digits_from (add_digit (digit (code c)) n) s

abbrev digits : String → Option ℕ
digits [] = none
digits (c ∷ s) = digits_from (some 0) (c ∷ s)

-- strconv.Atoi, where `int` has 64 bits: an error outside of its range.
abbrev positive : Option ℕ → Option ℤ
positive none = none
positive (some n) = if ltb n (2 ^ 63) then some (pos n) else none

abbrev negative : Option ℕ → Option ℤ
negative none = none
negative (some zero) = some (pos 0)
negative (some (suc n)) = if ltb n (2 ^ 63) then some (negsuc n) else none

unfoldable pub atoi : String → Option ℤ
unfolding digits_from
atoi [] = none
atoi (c ∷ s) =
    let plus = positive (digits s) in
    let minus = negative (digits s) in
    let plain = positive (digits (c ∷ s)) in
    if eqb (code c) b'+' then plus else if eqb (code c) b'-' then minus else plain

abbrev lower : ℕ → ℕ
lower c = if leb 65 c && leb c 90 then c + 32 else c

-- `strings.ToLower(s) == t` for a `t` of ASCII letters other than i and k, which no letter outside
-- of ASCII has as its lower case.
unfoldable pub lowers_to : String → String → Bool
lowers_to [] [] = true
lowers_to [] (d ∷ t) = false
lowers_to (c ∷ s) [] = false
lowers_to (c ∷ s) (d ∷ t) = eqb (lower (code c)) (code d) && lowers_to s t

-- The part before the first separator, and the part behind it.
unfoldable pub before : String → ℕ → String
before [] sep = ""
before (c ∷ s) sep = let rest = before s sep in if eqb (code c) sep then "" else c ∷ rest

unfoldable pub behind : String → ℕ → String
behind [] sep = ""
behind (c ∷ s) sep = let rest = behind s sep in if eqb (code c) sep then s else rest

split_path : split "activities/dlq/x/retry" b'/' ≡ "activities" ∷ "dlq" ∷ "x" ∷ "retry" ∷ []
unfolding split
split_path = refl

trim_slashes : trim "//a/b/" b'/' ≡ "a/b"
unfolding trim
trim_slashes = refl

cut_cancel : trim_suffix "executions/7/cancel" "/cancel" ≡ "executions/7"
unfolding cut_suffix
cut_cancel = refl

page_numbers : (atoi "25" ≡ some (pos 25)) × (atoi "-3" ≡ some (negsuc 2)) × (atoi "2x" ≡ none)
unfolding atoi
page_numbers = (refl, refl, refl)

spaces : trim_space " RUNNING " ≡ "RUNNING"
unfolding trim_space
spaces = refl
