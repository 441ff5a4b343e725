-- ===== src/Base/Dict.antt =====
-- Python's `dict` with string keys, in insertion order: an association list.
use Prim.Native.String.{String}
use mathlib.Core.Path.{◌≡◌, refl}
use mathlib.Core.Logic.{◌≢◌}
use mathlib.Core.Bool.{Bool, false, ◌||◌}
use mathlib.Core.Option.{Option, none, some}
use mathlib.Core.List.{List, [], ◌∷◌}
use native.Mathlib.Omega.{arith}
use text.Mathlib.Text.{◌==◌}
use text.Mathlib.TextEquality.{eq_iff}
use valve_infra.Base.Tests.{if◌then◌else◌}

abbrev pub Dict {ℓ} : Type ℓ → Type ℓ
Dict V = List (String × V)

module _ {ℓ} {V : Type ℓ} where
  -- d.get(k)
  unfoldable pub lookup : String → Dict V → Option V
  lookup k [] = none
  lookup k ((j, v) ∷ d) = if j == k then some v else lookup k d

  -- d[k] = v
  unfoldable pub insert : String → V → Dict V → Dict V
  insert k v [] = (k, v) ∷ []
  insert k v ((j, w) ∷ d) = if j == k then (j, v) ∷ d else (j, w) ∷ insert k v d

  -- d.pop(k, None)
  unfoldable pub erase : String → Dict V → Dict V
  erase k [] = []
  erase k ((j, w) ∷ d) = let rest = erase k d in if j == k then rest else (j, w) ∷ rest

  -- d.values()
  unfoldable pub values : Dict V → List V
  values [] = []
  values ((k, v) ∷ d) = v ∷ values d

  -- `k in d`
  abbrev pub has : String → Dict V → Bool
  has k [] = false
  has k ((j, v) ∷ d) = j == k || has k d

  has-insert_ne : (k j : String) (v : V) (d : Dict V) → k ≢ j → has j (insert k v d) ≡ has j d
  unfolding insert
  has-insert_ne k j v [] h = ground (arith, eq_iff k j)
  has-insert_ne k j v ((i, w) ∷ d) h =
      ground (arith, eq_iff k j, eq_iff i k, eq_iff i j, has-insert_ne k j v d h)

  pub lookup-insert :
      (k j : String) (v : V) (d : Dict V)
      → lookup j (insert k v d) ≡ (if k == j then some v else lookup j d)
  unfolding lookup insert
  lookup-insert k j v [] = refl
  lookup-insert k j v ((i, w) ∷ d) =
      ground (arith, eq_iff k j, eq_iff i k, eq_iff i j, lookup-insert k j v d)

  pub lookup-erase :
      (k j : String) (d : Dict V) → lookup j (erase k d) ≡ (if k == j then none else lookup j d)
  unfolding lookup erase
  lookup-erase k j [] = ground arith
  lookup-erase k j ((i, w) ∷ d) =
      ground (arith, eq_iff k j, eq_iff i k, eq_iff i j, lookup-erase k j d)

  -- No key stands twice, as in every Python `dict`.
  abbrev pub IsDict : Dict V → Type 0
  IsDict [] = Unit
  IsDict ((k, v) ∷ d) = (has k d ≡ false) × IsDict d

  pub lookup-has : (k : String) (d : Dict V) → has k d ≡ false → lookup k d ≡ none
  unfolding lookup
  lookup-has k [] h = refl
  lookup-has k ((j, v) ∷ d) h = ground (arith, lookup-has k d)

  pub insert-IsDict : (k : String) (v : V) (d : Dict V) → IsDict d → IsDict (insert k v d)
  unfolding insert
  insert-IsDict k v [] h = (refl, tt)
  insert-IsDict k v ((j, w) ∷ d) h =
      ground (arith, eq_iff j k, insert-IsDict k v d h.1, has-insert_ne k j v d)

pub ruleset dict_laws = (lookup-insert, lookup-erase)
