-- ===== src/Base/Order.antt =====
-- The order of texts, and association lists sorted by it.
use Prim.Native.Nat.{compare, Ordering, lt, eq, gt}
use mathlib.Core.Path.{◌≡◌, refl}
use mathlib.Core.Option.{none, some}
use mathlib.Core.List.{[], ◌∷◌}
use native.Mathlib.Omega.{arith}
use php_fast_profile.Base.Tests.{if◌then◌else◌}
use php_fast_profile.Base.Equality.{eqb, nat_eq, list_eq, list_beq_iff}
use php_fast_profile.Base.Map.{HashMap, lookup}
use php_fast_profile.Base.Text.{Text}

-- `a.cmp(b)`: texts are ordered by their characters, as their encodings are by their bytes.
unfoldable pub text_cmp : Text → Text → Ordering
text_cmp [] [] = eq
text_cmp [] (d ∷ t) = lt
text_cmp (c ∷ s) [] = gt
text_cmp (c ∷ s) (d ∷ t) = elim (compare c d) [ lt ↦ lt | gt ↦ gt | eq ↦ text_cmp s t ]

pub text_cmp-eq : (s t : Text) → text_cmp s t ≡ eq → s ≡ t
unfolding text_cmp
text_cmp-eq [] [] e = refl
text_cmp-eq [] (d ∷ t) e = cc
text_cmp-eq (c ∷ s) [] e = cc
text_cmp-eq (c ∷ s) (d ∷ t) e = ground (arith, text_cmp-eq s t)

pub text_cmp_refl : (s : Text) → text_cmp s s ≡ eq
unfolding text_cmp
text_cmp_refl [] = refl
text_cmp_refl (c ∷ s) = ground (arith, text_cmp_refl s)

pub text_cmp_flip : (s t : Text) → text_cmp s t ≡ gt → text_cmp t s ≡ lt
unfolding text_cmp
text_cmp_flip [] [] e = cc
text_cmp_flip [] (d ∷ t) e = cc
text_cmp_flip (c ∷ s) [] e = refl
text_cmp_flip (c ∷ s) (d ∷ t) e = ground (arith, text_cmp_flip s t)

pub text_cmp_trans : (s t u : Text) → text_cmp s t ≡ lt → text_cmp t u ≡ lt → text_cmp s u ≡ lt
unfolding text_cmp
text_cmp_trans [] [] u e f = cc
text_cmp_trans [] (d ∷ t) [] e f = cc
text_cmp_trans [] (d ∷ t) (a ∷ u) e f = refl
text_cmp_trans (c ∷ s) [] u e f = cc
text_cmp_trans (c ∷ s) (d ∷ t) [] e f = cc
text_cmp_trans (c ∷ s) (d ∷ t) (a ∷ u) e f = ground (arith, text_cmp_trans s t u)

module _ {ℓ} {V : Type ℓ} where
  -- An entry is put before the first one whose key is not less.
  unfoldable pub place : Text → V → HashMap Text V → HashMap Text V
  place k v [] = (k, v) ∷ []
  place k v ((j, w) ∷ m) = elim (text_cmp k j) [
    | gt ↦ (j, w) ∷ place k v m
    | _ ↦ (k, v) ∷ (j, w) ∷ m
  ]

  -- `entries.sort_by(|a, b| a.0.cmp(&b.0))`, a stable sort.
  unfoldable pub sort_entries : HashMap Text V → HashMap Text V
  unfolding place
  sort_entries [] = []
  sort_entries ((k, v) ∷ m) = place k v (sort_entries m)

  -- All keys are greater than `k`.
  abbrev pub Above : Text → HashMap Text V → Type 0
  Above k [] = Unit
  Above k ((j, w) ∷ m) = (text_cmp k j ≡ lt) × Above k m

  abbrev pub IsAscending : HashMap Text V → Type 0
  IsAscending [] = Unit
  IsAscending ((k, v) ∷ m) = Above k m × IsAscending m

  pub Above-trans : (i k : Text) (m : HashMap Text V) → text_cmp i k ≡ lt → Above k m → Above i m
  Above-trans i k [] e h = tt
  Above-trans i k ((j, w) ∷ m) e (hj, h) = (text_cmp_trans i k j e hj, Above-trans i k m e h)

  pub lookup-Above : (k : Text) (m : HashMap Text V) → Above k m → lookup k m ≡ none
  unfolding lookup
  lookup-Above k [] h = refl
  lookup-Above k ((j, w) ∷ m) (hj, h) =
      ground (arith, lookup-Above k m h, list_beq_iff j k, text_cmp_refl k)

  pub lookup-place :
      (k j : Text) (v : V) (m : HashMap Text V)
      → lookup k m ≡ none
      → lookup j (place k v m) ≡ (if eqb k j then some v else lookup j m)
  unfolding lookup place
  lookup-place k j v [] h = refl
  lookup-place k j v ((i, w) ∷ m) h =
      ground (arith, lookup-place k j v m, list_beq_iff i k, list_beq_iff i j, list_beq_iff k j)

  Above-place :
      (i k : Text) (v : V) (m : HashMap Text V)
      → text_cmp i k ≡ lt
      → Above i m
      → Above i (place k v m)
  unfolding place
  Above-place i k v [] e h = (e, tt)
  Above-place i k v ((j, w) ∷ m) e (hj, h) = ground (arith, Above-place i k v m e h)

  pub place-IsAscending :
      (k : Text) (v : V) (m : HashMap Text V)
      → lookup k m ≡ none
      → IsAscending m
      → IsAscending (place k v m)
  unfolding place lookup
  place-IsAscending k v [] f h = (tt, tt)
  place-IsAscending k v ((j, w) ∷ m) f (hj, h) = ground (
    arith,
    place-IsAscending k v m,
    Above-place j k v m,
    Above-trans k j m,
    text_cmp_flip k j,
    text_cmp-eq k j,
    list_beq_iff j k,
  )
