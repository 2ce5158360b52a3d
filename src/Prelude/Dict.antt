-- ===== src/Prelude/Dict.antt =====
-- `HashMap<String, V>` as an association list: its order is not observed by what is modelled.
use mathlib.Core.Path.{◌≡◌, refl}
use mathlib.Core.Bool.{Bool}
use mathlib.Core.Option.{Option, none, some}
use mathlib.Core.List.{List, [], ◌∷◌}
use Prim.Native.String.{String}
use native.Mathlib.Omega.{arith}
use text.Mathlib.Text.{◌==◌}
use text.Mathlib.TextEquality.{eq_iff}
use analytics_hub.Prelude.Tests.{if◌then◌else◌}

abbrev pub Dict {ℓ} : Type ℓ → Type ℓ
Dict V = List (String × V)

abbrev pub str_eq : String → String → Bool
str_eq a b = a == b

module _ {ℓ} {V : Type ℓ} where
  unfoldable pub lookup : String → Dict V → Option V
  lookup key [] = none
  lookup key (entry ∷ rest) =
      let later = lookup key rest in if str_eq (entry.0) key then some (entry.1) else later

  -- The key that is there is kept, as the source's map keeps it.
  unfoldable pub insert : String → V → Dict V → Dict V
  insert key value [] = (key, value) ∷ []
  insert key value (entry ∷ rest) =
      let later = insert key value rest in
      if str_eq (entry.0) key then (entry.0, value) ∷ rest else entry ∷ later

  unfoldable pub remove : String → Dict V → Dict V
  remove key [] = []
  remove key (entry ∷ rest) =
      let later = remove key rest in if str_eq (entry.0) key then later else entry ∷ later

  pub lookup-insert :
      (key asked : String) (value : V) (entries : Dict V)
      → lookup asked (insert key value entries)
        ≡ (if str_eq key asked then some value else lookup asked entries)
  unfolding lookup insert
  lookup-insert key asked value [] = refl
  lookup-insert key asked value (entry ∷ rest) =
      let later = lookup-insert key asked value rest in
      ground (arith, later, eq_iff (entry.0) key, eq_iff (entry.0) asked, eq_iff key asked)

  pub lookup-remove : (key : String) (entries : Dict V) → lookup key (remove key entries) ≡ none
  unfolding lookup remove
  lookup-remove key [] = refl
  lookup-remove key (entry ∷ rest) = let later = lookup-remove key rest in ground (arith, later)
