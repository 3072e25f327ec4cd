-- ===== src/Common/Dict.antt =====
-- A `HashMap` as an association list. The order of the entries has no meaning.
use mathlib.Core.Path.{◌≡◌, refl}
use mathlib.Core.Option.{Option, none, some}
use mathlib.Core.List.{List, [], ◌∷◌}
use native.Mathlib.Omega.{arith}
use inx_chronicle.Common.Tests.{Eq, if◌then◌else◌}

abbrev pub Dict {ℓ κ} : Type ℓ → Type κ → Type (ℓ ⊔ κ)
Dict K V = List (K × V)

module _ {ℓ κ} {K : Type ℓ} {V : Type κ} ⦃key : Eq K⦄ where
  -- `map.get(k)`
  abbrev pub lookup : K → Dict K V → Option V
  lookup k [] = none
  lookup k ((j, v) ∷ d) = if key.beq k j then some v else lookup k d

  -- `map.insert(k, v)`
  abbrev pub insert : K → V → Dict K V → Dict K V
  insert k v [] = (k, v) ∷ []
  insert k v ((j, w) ∷ d) = if key.beq k j then (j, v) ∷ d else (j, w) ∷ insert k v d

  -- `map.remove(k)`
  abbrev pub remove : K → Dict K V → Dict K V
  remove k [] = []
  remove k ((j, w) ∷ d) = if key.beq k j then d else (j, w) ∷ remove k d

  -- every key once
  abbrev pub IsDistinct : Dict K V → Type κ
  IsDistinct [] = Unit
  IsDistinct ((j, w) ∷ d) = (lookup j d ≡ none) × IsDistinct d

  pub lookup-insert :
      (j k : K) (v : V) (d : Dict K V)
      → lookup j (insert k v d) ≡ (if key.beq j k then some v else lookup j d)
  lookup-insert j k v [] = refl
  lookup-insert j k v ((i, w) ∷ d) =
      ground (arith, lookup-insert j k v d, key.beq_iff j k, key.beq_iff k i, key.beq_iff j i)

  pub insert-IsDistinct : (k : K) (v : V) (d : Dict K V) → IsDistinct d → IsDistinct (insert k v d)
  insert-IsDistinct k v [] h = (refl, tt)
  insert-IsDistinct k v ((i, w) ∷ d) h =
      ground (
        arith,
        insert-IsDistinct k v d h.1,
        lookup-insert i k v d,
        key.beq_iff i k,
        key.beq_iff k i,
      )

  pub lookup-remove :
      (j k : K) (d : Dict K V)
      → IsDistinct d
      → lookup j (remove k d) ≡ (if key.beq j k then none else lookup j d)
  lookup-remove j k [] h = ground arith
  lookup-remove j k ((i, w) ∷ d) h =
      ground (arith, lookup-remove j k d h.1, key.beq_iff j k, key.beq_iff k i, key.beq_iff j i)

  pub remove-IsDistinct : (k : K) (d : Dict K V) → IsDistinct d → IsDistinct (remove k d)
  remove-IsDistinct k [] h = tt
  remove-IsDistinct k ((i, w) ∷ d) h =
      ground (arith, remove-IsDistinct k d h.1, lookup-remove i k d h.1)
