-- ===== src/Prelude/Dicts.antt =====
-- A Python dict with string keys, in insertion order.
use mathlib.Core.Path.{◌≡◌, refl}
use mathlib.Core.Bool.{Bool, true, false}
use mathlib.Core.Option.{Option, none, some}
use mathlib.Core.List.{List, [], ◌∷◌}
use native.Mathlib.Omega.{arith}
use Prim.Native.String.{String}
use edgesense_ai.Prelude.Tests.{if◌then◌else◌}
use edgesense_ai.Prelude.Text.{str_eq, eq_iff}

abbrev pub Dict {ℓ} : Type ℓ → Type ℓ
Dict V = List (String × V)

module _ {ℓ} {V : Type ℓ} where
  -- `d.get(k)`
  abbrev pub lookup : String → Dict V → Option V
  lookup k [] = none
  lookup k ((j, v) ∷ d) = if str_eq j k then some v else lookup k d

  -- `d[k] = v`
  abbrev pub insert : String → V → Dict V → Dict V
  insert k v [] = (k, v) ∷ []
  insert k v ((j, w) ∷ d) = if str_eq j k then (j, v) ∷ d else (j, w) ∷ insert k v d

  pub lookup-insert :
      (k j : String) (v : V) (d : Dict V)
      → lookup j (insert k v d) ≡ (if str_eq k j then some v else lookup j d)
  lookup-insert k j v [] = refl
  lookup-insert k j v ((i, w) ∷ d) =
      ground (arith, eq_iff k j, eq_iff i k, eq_iff i j, lookup-insert k j v d)

  -- `not d`
  abbrev pub is_empty : Dict V → Bool
  is_empty [] = true
  is_empty (_ ∷ _) = false

  pub not_empty_of_lookup :
      (k : String) {v : V} (d : Dict V) → lookup k d ≡ some v → is_empty d ≡ false
  not_empty_of_lookup k [] h = cc
  not_empty_of_lookup k (e ∷ d) h = refl
