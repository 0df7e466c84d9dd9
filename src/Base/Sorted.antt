-- ===== src/Base/Sorted.antt =====
-- Sorting the entries of a map: the result depends on what the map holds, and not on its order.
use mathlib.Core.Path.{◌≡◌, refl, sym, ◌∙◌, subst}
use mathlib.Core.Option.{none, some}
use mathlib.Core.List.{[], ◌∷◌}
use Prim.Native.Nat.{Ordering, lt, eq, gt}
use native.Mathlib.Omega.{arith}
use php_fast_profile.Base.Equality.{nat_eq, list_eq, list_beq_iff}
use php_fast_profile.Base.Map.{HashMap, lookup, IsMap}
use php_fast_profile.Base.Text.{Text}
use php_fast_profile.Base.Order.{
  text_cmp, text_cmp-eq, text_cmp_flip, sort_entries, Above, IsAscending, Above-trans, lookup-Above,
  lookup-place, place-IsAscending,
}

module _ {ℓ} {V : Type ℓ} where
  pub lookup-sort_entries :
      (k : Text) (m : HashMap Text V) → IsMap m → lookup k (sort_entries m) ≡ lookup k m
  unfolding sort_entries lookup
  lookup-sort_entries k [] h = refl
  lookup-sort_entries k ((j, w) ∷ m) (fresh, h) = ground (
    arith,
    lookup-place j k w (sort_entries m),
    lookup-sort_entries j m h,
    lookup-sort_entries k m h,
  )

  pub sort_entries-IsAscending : (m : HashMap Text V) → IsMap m → IsAscending (sort_entries m)
  unfolding sort_entries
  sort_entries-IsAscending [] h = tt
  sort_entries-IsAscending ((j, w) ∷ m) (fresh, h) =
      place-IsAscending j w (sort_entries m) (lookup-sort_entries j m h ∙ fresh)
        (sort_entries-IsAscending m h)

  abbrev pub SameLookups : HashMap Text V → HashMap Text V → Type ℓ
  SameLookups m n = (k : Text) → lookup k m ≡ lookup k n

  lookup_nil : (k : Text) → lookup {V = V} k [] ≡ none
  unfolding lookup
  lookup_nil k = refl

  -- The first entry of a map, looked up.
  lookup-head : (k : Text) (v : V) (m : HashMap Text V) → lookup k ((k, v) ∷ m) ≡ some v
  unfolding lookup
  lookup-head k v m = ground (arith, list_beq_iff k k)

  lookup_below :
      (i k : Text) (v : V) (m : HashMap Text V)
      → text_cmp i k ≡ lt
      → Above k m
      → lookup i ((k, v) ∷ m) ≡ none
  lookup_below i k v m e h = lookup-Above i ((k, v) ∷ m) (e, Above-trans i k m e h)

  heads_agree :
      (k j : Text) (v w : V) (m n : HashMap Text V)
      → Above k m
      → Above j n
      → SameLookups ((k, v) ∷ m) ((j, w) ∷ n)
      → k ≡ j
  heads_agree k j v w m n hm hn same = by_order (text_cmp k j) refl
    where
      by_order : (o : Ordering) → text_cmp k j ≡ o → k ≡ j
      by_order eq e = text_cmp-eq k j e
      by_order lt e = cc (lookup_below k j w n e hn, lookup-head k v m, same k)
      by_order gt e = cc (lookup_below j k v m (text_cmp_flip k j e) hm, lookup-head j w n, same j)

  tails_agree :
      (k : Text) (v w : V) (m n : HashMap Text V)
      → Above k m
      → Above k n
      → SameLookups ((k, v) ∷ m) ((k, w) ∷ n)
      → SameLookups m n
  unfolding lookup
  tails_agree k v w m n hm hn same i =
      ground (arith, same i, lookup-Above k m hm, lookup-Above k n hn, list_beq_iff k i)

  pub ascending_ext :
      (m n : HashMap Text V) → IsAscending m → IsAscending n → SameLookups m n → m ≡ n
  ascending_ext [] [] hm hn same = refl
  ascending_ext [] ((j, w) ∷ n) hm hn same = cc (same j, lookup-head j w n, lookup_nil j)
  ascending_ext ((k, v) ∷ m) [] hm hn same = cc (same k, lookup-head k v m, lookup_nil k)
  ascending_ext ((k, v) ∷ m) ((j, w) ∷ n) hm hn same =
      subst (λ x. Above x n → SameLookups ((k, v) ∷ m) ((x, w) ∷ n) → (k, v) ∷ m ≡ (x, w) ∷ n)
        (heads_agree k j v w m n hm.0 hn.0 same)
        (λ above alike. cc (
          alike k,
          lookup-head k v m,
          lookup-head k w n,
          ascending_ext m n hm.1 hn.1 (tails_agree k v w m n hm.0 above alike),
        ))
        hn.0 same

  -- Two maps that hold the same sort to one list.
  pub sort_entries-eq :
      (m n : HashMap Text V) → IsMap m → IsMap n → SameLookups m n → sort_entries m ≡ sort_entries n
  sort_entries-eq m n hm hn same =
      ascending_ext _ _ (sort_entries-IsAscending m hm) (sort_entries-IsAscending n hn)
        (λ k. lookup-sort_entries k m hm ∙ same k ∙ sym (lookup-sort_entries k n hn))
