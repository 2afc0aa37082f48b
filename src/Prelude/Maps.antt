-- ===== src/Prelude/Maps.antt =====
-- A Go map with text keys, as an association list without repeated keys.
use Prim.Native.String.{String}
use mathlib.Core.Path.{◌≡◌, refl}
use mathlib.Core.Logic.{◌≢◌}
use mathlib.Core.Option.{Option, none, some}
use mathlib.Core.List.{List, [], ◌∷◌}
use native.Mathlib.Omega.{arith}
use text.Mathlib.Text.{◌==◌ as str_eq}
use text.Mathlib.TextEquality.{eq_iff}
use text.Mathlib.TextPositions.{eq_refl}
use orbit_control.Prelude.Tests.{if◌then◌else◌}

abbrev pub Assoc {ℓ} : Type ℓ → Type ℓ
Assoc V = List (String × V)

module _ {ℓ} {V : Type ℓ} where
  -- m[key], with whether the key is there
  unfoldable pub lookup : String → Assoc V → Option V
  lookup key [] = none
  lookup key ((name, value) ∷ m) =
      let rest = lookup key m in if str_eq name key then some value else rest

  -- delete(m, key)
  pub remove : String → Assoc V → Assoc V
  remove key [] = []
  remove key ((name, value) ∷ m) =
      let rest = remove key m in if str_eq name key then rest else (name, value) ∷ rest

  -- m[key] = value
  unfoldable pub insert : String → V → Assoc V → Assoc V
  insert key value [] = (key, value) ∷ []
  insert key value ((name, old) ∷ m) =
      let rest = insert key value m in
      if str_eq name key then (key, value) ∷ m else (name, old) ∷ rest

  pub lookup-remove :
      (key other : String) (m : Assoc V)
      → lookup other (remove key m) ≡ (if str_eq key other then none else lookup other m)
  unfolding lookup remove
  lookup-remove key other [] = ground arith
  lookup-remove key other ((name, value) ∷ m) =
      ground
        (arith, lookup-remove key other m, eq_iff name other, eq_iff name key, eq_iff key other)

  pub lookup-insert :
      (key other : String) (value : V) (m : Assoc V)
      → lookup other (insert key value m)
        ≡ (if str_eq key other then some value else lookup other m)
  unfolding insert lookup
  lookup-insert key other value [] = refl
  lookup-insert key other value ((name, old) ∷ m) =
      ground (
        arith,
        lookup-insert key other value m,
        eq_iff name other,
        eq_iff name key,
        eq_iff key other,
      )

  pub lookup-insert_self : (k : String) (v : V) (m : Assoc V) → lookup k (insert k v m) ≡ some v
  lookup-insert_self k v m = simp (lookup-insert, eq_refl)

  pub lookup-remove_self : (m : Assoc V) (k : String) → lookup k (remove k m) ≡ none
  lookup-remove_self m k = simp (lookup-remove, eq_refl)

  pub lookup-remove_ne : (m : Assoc V) (k j : String) → k ≢ j → lookup j (remove k m) ≡ lookup j m
  lookup-remove_ne m k j h = ground (arith, lookup-remove k j m, eq_iff k j)

  pub lookup-insert_ne :
      (k j : String) (v : V) (m : Assoc V) → k ≢ j → lookup j (insert k v m) ≡ lookup j m
  lookup-insert_ne k j v m h = ground (arith, lookup-insert k j v m, eq_iff k j)

  pub lookup-insert_at :
      (k j : String) (v : V) (m : Assoc V) → k ≡ j → lookup j (insert k v m) ≡ some v
  lookup-insert_at k j v m h = ground (arith, lookup-insert k j v m, eq_iff k j)
