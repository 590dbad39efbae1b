-- ===== src/Prelude/Dictionary.antt =====
-- A map with text keys, as an association list: a key that is not there has no value, and a second
-- insertion replaces the first.
use mathlib.Core.Path.{◌≡◌, refl}
use mathlib.Core.Option.{Option, none, some}
use mathlib.Core.List.{List, [], ◌∷◌}
use native.Mathlib.Omega.{arith}
use Prim.Native.String.{String}
use text.Mathlib.Text.{◌==◌}
use text.Mathlib.TextEquality.{eq_iff}
use flowscale.Prelude.Tests.{if◌then◌else◌}

module _ {ℓ} {V : Type ℓ} where
  -- m[key], if there is one
  unfoldable pub value_at : String → List (String × V) → Option V
  value_at key [] = none
  value_at key ((other, value) ∷ rest) = if other == key then some value else value_at key rest

  -- m[key] = value
  unfoldable pub assign : String → V → List (String × V) → List (String × V)
  assign key value [] = (key, value) ∷ []
  assign key value ((other, old) ∷ rest) =
      if other == key then (key, value) ∷ rest else (other, old) ∷ assign key value rest

  unfoldable pub keys : List (String × V) → List String
  keys [] = []
  keys (entry ∷ rest) = entry.0 ∷ keys rest

  pub value_at-assign :
      (key asked : String) (value : V) (m : List (String × V))
      → value_at asked (assign key value m)
        ≡ (if key == asked then some value else value_at asked m)
  unfolding value_at assign
  value_at-assign key asked value [] = refl
  value_at-assign key asked value ((other, old) ∷ rest) =
      let ih = value_at-assign key asked value rest in
      ground (arith, ih, eq_iff other asked, eq_iff other key, eq_iff key asked)
