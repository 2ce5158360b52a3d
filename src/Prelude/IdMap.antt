-- ===== src/Prelude/IdMap.antt =====
-- `DashMap<Uuid, V>` as a list of its entries: the order of the list stands for the order in which
-- the map is iterated, which is not specified.
use Prim.Native.Nat.{ℕ}
use mathlib.Core.Path.{◌≡◌}
use mathlib.Core.Bool.{Bool}
use mathlib.Core.Option.{Option, none, some}
use mathlib.Core.List.{List, [], ◌∷◌}
use native.Mathlib.Omega.{arith}
use analytics_hub.Prelude.Tests.{if◌then◌else◌, ◌==◌}

abbrev pub IdMap {ℓ} : Type ℓ → Type ℓ
IdMap V = List (ℕ × V)

module _ {ℓ} {V : Type ℓ} where
  unfoldable pub lookup_id : ℕ → IdMap V → Option V
  lookup_id key [] = none
  lookup_id key (entry ∷ rest) =
      let later = lookup_id key rest in if (entry.0) == key then some (entry.1) else later

  unfoldable pub remove_id : ℕ → IdMap V → IdMap V
  remove_id key [] = []
  remove_id key (entry ∷ rest) =
      let later = remove_id key rest in if (entry.0) == key then later else entry ∷ later

  unfoldable pub insert_id : ℕ → V → IdMap V → IdMap V
  unfolding remove_id
  insert_id key value entries = (key, value) ∷ remove_id key entries

  -- `retain`
  unfoldable pub retain : (V → Bool) → IdMap V → IdMap V
  retain keep [] = []
  retain keep (entry ∷ rest) =
      let later = retain keep rest in if keep (entry.1) then entry ∷ later else later

  lookup-remove_id_other :
      (key asked : ℕ) (entries : IdMap V)
      → lookup_id asked (remove_id key entries)
        ≡ (if key == asked then none else lookup_id asked entries)
  unfolding lookup_id remove_id
  lookup-remove_id_other key asked [] = ground arith
  lookup-remove_id_other key asked (entry ∷ rest) =
      let later = lookup-remove_id_other key asked rest in ground (arith, later)

  pub lookup-insert_id :
      (key asked : ℕ) (value : V) (entries : IdMap V)
      → lookup_id asked (insert_id key value entries)
        ≡ (if key == asked then some value else lookup_id asked entries)
  unfolding lookup_id insert_id
  lookup-insert_id key asked value entries =
      let others = lookup-remove_id_other key asked entries in ground (arith, others)
