-- ===== src/Base/Map.antt =====
-- `std::collections::HashMap` as an association list with one entry a key, oldest first. The order
-- in which the real map yields its entries is not specified: code that depends on it takes the
-- order as a parameter.
use Prim.Native.Nat.{◌+◌, ◌≤◌}
use mathlib.Core.Path.{◌≡◌, refl}
use mathlib.Core.Option.{Option, none, some}
use mathlib.Core.List.{List, [], ◌∷◌}
use native.Mathlib.Omega.{arith}
use php_fast_profile.Base.Tests.{if◌then◌else◌}
use php_fast_profile.Base.Lists.{length}
use php_fast_profile.Base.Equality.{Eq, eqb}

abbrev pub HashMap {ℓ κ} : Type ℓ → Type κ → Type (ℓ ⊔ κ)
HashMap K V = List (K × V)

abbrev pub value_or {ℓ} : {V : Type ℓ} → V → Option V → V
value_or d none = d
value_or d (some v) = v

module _ {ℓ κ} {K : Type ℓ} {V : Type κ} ⦃e : Eq K⦄ where
  unfoldable pub lookup : K → HashMap K V → Option V
  lookup k [] = none
  lookup k ((j, v) ∷ m) = if eqb j k then some v else lookup k m

  unfoldable pub insert : K → V → HashMap K V → HashMap K V
  insert k v [] = (k, v) ∷ []
  insert k v ((j, w) ∷ m) = if eqb j k then (j, v) ∷ m else (j, w) ∷ insert k v m

  -- `*map.entry(k).or_insert(d) = f(..)`: the entry, made with `d` if it is missing, is updated.
  unfoldable pub upsert : K → V → (V → V) → HashMap K V → HashMap K V
  upsert k d f [] = (k, f d) ∷ []
  upsert k d f ((j, w) ∷ m) = if eqb j k then (j, f w) ∷ m else (j, w) ∷ upsert k d f m

  pub lookup-insert :
      (k j : K) (v : V) (m : HashMap K V)
      → lookup j (insert k v m) ≡ (if eqb k j then some v else lookup j m)
  unfolding lookup insert
  lookup-insert k j v [] = refl
  lookup-insert k j v ((i, w) ∷ m) =
      ground (arith, e.beq_iff k j, e.beq_iff i k, e.beq_iff i j, lookup-insert k j v m)

  pub lookup-upsert :
      (k j : K) (d : V) (f : V → V) (m : HashMap K V)
      → lookup j (upsert k d f m)
        ≡ (if eqb k j then some (f (value_or d (lookup k m))) else lookup j m)
  unfolding lookup upsert
  lookup-upsert k j d f [] = refl
  lookup-upsert k j d f ((i, w) ∷ m) =
      ground (arith, e.beq_iff k j, e.beq_iff i k, e.beq_iff i j, lookup-upsert k j d f m)

  pub length-insert : (k : K) (v : V) (m : HashMap K V) → length (insert k v m) ≤ length m + 1
  unfolding insert
  length-insert k v [] = omega arith
  length-insert k v ((j, w) ∷ m) = ground (arith, length-insert k v m)

  -- No two entries have one key.
  abbrev pub IsMap : HashMap K V → Type κ
  IsMap [] = Unit
  IsMap ((k, v) ∷ m) = (lookup k m ≡ none) × IsMap m

  pub IsMap-insert : (k : K) (v : V) (m : HashMap K V) → IsMap m → IsMap (insert k v m)
  unfolding insert lookup
  IsMap-insert k v [] h = (refl, tt)
  IsMap-insert k v ((j, w) ∷ m) (fresh, h) =
      ground (arith, IsMap-insert k v m h, lookup-insert k j v m, e.beq_iff j k, e.beq_iff k j)

  pub IsMap-upsert :
      (k : K) (d : V) (f : V → V) (m : HashMap K V) → IsMap m → IsMap (upsert k d f m)
  unfolding upsert lookup
  IsMap-upsert k d f [] h = (refl, tt)
  IsMap-upsert k d f ((j, w) ∷ m) (fresh, h) =
      ground (arith, IsMap-upsert k d f m h, lookup-upsert k j d f m, e.beq_iff j k, e.beq_iff k j)
