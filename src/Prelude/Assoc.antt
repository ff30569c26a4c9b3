-- ===== src/Prelude/Assoc.antt =====
-- A Go map with text keys as an association list: a key is set in place, or added at the end.
use Prim.Native.String.{String}
use mathlib.Core.Path.{◌≡◌, refl}
use mathlib.Core.List.{List, [], ◌∷◌}
use mathlib.Core.Option.{Option, none, some}
use native.Mathlib.Omega.{arith}
use text.Mathlib.TextEquality.{eq_iff}
use statlite.Prelude.Tests.{if◌then◌else◌}
use statlite.Prelude.Text.{str_eq}

module _ {ℓ} {A : Type ℓ} where
  -- m[key] = value
  unfoldable pub insert : String → A → List (String × A) → List (String × A)
  insert key value [] = (key, value) ∷ []
  insert key value ((name, old) ∷ rest) =
      if str_eq name key then (key, value) ∷ rest else (name, old) ∷ insert key value rest

  -- value, ok := m[key]
  unfoldable pub lookup : String → List (String × A) → Option A
  lookup key [] = none
  lookup key ((name, value) ∷ rest) = if str_eq name key then some value else lookup key rest

  pub lookup-insert :
      (key other : String) (value : A) (entries : List (String × A))
      → lookup other (insert key value entries)
        ≡ (if str_eq key other then some value else lookup other entries)
  unfolding insert lookup
  lookup-insert key other value [] = refl
  lookup-insert key other value ((name, old) ∷ rest) = ground (
    arith,
    lookup-insert key other value rest,
    eq_iff name key,
    eq_iff key other,
    eq_iff name other,
  )
