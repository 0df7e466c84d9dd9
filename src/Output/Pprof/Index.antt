-- ===== src/Output/Pprof/Index.antt =====
-- A table whose entries are found by an index of their keys, and numbered from a base.
use php_fast_profile.Base.{
  ℕ, zero, suc, ◌+◌, List, [], ◌∷◌, ◌++◌, Option, none, some, length, get_elem?, ◌≡◌, refl, ◌↔◌,
  arith, ◌==◌, if◌then◌else◌, Eq,
}
use php_fast_profile.Base.Map.{HashMap, lookup, insert, lookup-insert}

-- The entry with a number, in a table whose first entry has the number `base`.
unfoldable pub get_from {ℓ} : {A : Type ℓ} → ℕ → List A → ℕ → Option A
get_from zero xs i = get_elem? xs i
get_from (suc base) xs zero = none
get_from (suc base) xs (suc i) = get_from base xs i

get_elem?-push {ℓ} :
    {A : Type ℓ} (xs : List A) (x : A) (i : ℕ)
    → get_elem? (xs ++ (x ∷ [])) i ≡ (if i == length xs then some x else get_elem? xs i)
get_elem?-push [] x zero = refl
get_elem?-push [] x (suc i) = ground arith
get_elem?-push (y ∷ xs) x zero = ground arith
get_elem?-push (y ∷ xs) x (suc i) = ground (arith, get_elem?-push xs x i)

-- A new entry gets the next number, and leaves the others theirs.
pub get_from-push {ℓ} :
    {A : Type ℓ} (base : ℕ) (xs : List A) (x : A) (i : ℕ)
    → get_from base (xs ++ (x ∷ [])) i
      ≡ (if i == length xs + base then some x else get_from base xs i)
unfolding get_from
get_from-push zero xs x i = ground (arith, get_elem?-push xs x i)
get_from-push (suc base) xs x zero = ground arith
get_from-push (suc base) xs x (suc i) = ground (arith, get_from-push base xs x i)

get_elem?_end {ℓ} : {A : Type ℓ} (xs : List A) → get_elem? xs (length xs) ≡ none
get_elem?_end [] = refl
get_elem?_end (x ∷ xs) = get_elem?_end xs

pub get_from_end {ℓ} :
    {A : Type ℓ} (base : ℕ) (xs : List A) (n : ℕ) → n ≡ length xs + base → get_from base xs n ≡ none
unfolding get_from
get_from_end zero xs n e = ground (arith, get_elem?_end xs)
get_from_end (suc base) xs zero e = absurd (omega arith)
get_from_end (suc base) xs (suc n) e = get_from_end base xs n (omega arith)

module _ {K : Type 0} ⦃e : Eq K⦄ where
  -- The index holds the number of every key of the table, and nothing else.
  abbrev pub IsIndex : ℕ → List K → HashMap K ℕ → Type 0
  IsIndex base keys index =
      (k : K) (i : ℕ) → (lookup k index ≡ some i) ↔ (get_from base keys i ≡ some k)

  pub IsIndex-push :
      (base n : ℕ) (keys : List K) (index : HashMap K ℕ) (k : K)
      → n ≡ length keys + base
      → IsIndex base keys index
      → lookup k index ≡ none
      → IsIndex base (keys ++ (k ∷ [])) (insert k n index)
  IsIndex-push base n keys index k at h fresh j i = ground (
    arith,
    lookup-insert k j n index,
    get_from-push base keys k i,
    get_from_end base keys n at,
    h j i,
    h k i,
    e.beq_iff k j,
  )

pub get_from_keep {ℓ} :
    {A : Type ℓ} (base : ℕ) (xs : List A) (x y : A) (i : ℕ)
    → get_from base xs i ≡ some y
    → get_from base (xs ++ (x ∷ [])) i ≡ some y
get_from_keep base xs x y i h =
    ground (arith, get_from-push base xs x i, get_from_end base xs (length xs + base) refl)

pub get_from_new {ℓ} :
    {A : Type ℓ} (base : ℕ) (xs : List A) (x : A) (n : ℕ)
    → n ≡ length xs + base
    → get_from base (xs ++ (x ∷ [])) n ≡ some x
get_from_new base xs x n e = ground (arith, get_from-push base xs x n)
