-- ===== src/Output/Pprof/Reader.antt =====
-- How a reader of a profile gets from a number to an entry: by the `id` fields, which proto/profile.proto
-- says are unique and not zero.
use php_fast_profile.Base.{
  ℕ, zero, suc, ◌<◌, List, [], ◌∷◌, ◌++◌, map, All, Option, none, some, ◌≡◌, refl, ◌≢◌, sym, ap,
  ◌∙◌, inl, inr, arith, ◌==◌, ==_iff, Bool-cases, if◌then◌else◌,
}
use mathlib.Core.Path.{subst}
use php_fast_profile.Output.Pprof.Index.{get_from}

module _ {A : Type 0} where
  get_from_early : (base : ℕ) (xs : List A) (i : ℕ) → i < base → get_from base xs i ≡ none
  unfolding get_from
  get_from_early zero xs i h = absurd (omega arith)
  get_from_early (suc base) xs zero h = refl
  get_from_early (suc base) xs (suc i) h = get_from_early base xs i (omega arith)

  get_from-cons :
      (base : ℕ) (x : A) (xs : List A) (i : ℕ)
      → get_from base (x ∷ xs) i ≡ (if i == base then some x else get_from (suc base) xs i)
  unfolding get_from
  get_from-cons zero x xs zero = ground arith
  get_from-cons zero x xs (suc i) = ground arith
  get_from-cons (suc base) x xs zero = ground arith
  get_from-cons (suc base) x xs (suc i) = ground (arith, get_from-cons base x xs i)

  get_from_empty : (base i : ℕ) → get_from {A = A} base [] i ≡ none
  unfolding get_from
  get_from_empty zero i = refl
  get_from_empty (suc base) zero = refl
  get_from_empty (suc base) (suc i) = get_from_empty base i

module _ {A : Type 0} (id : A → ℕ) where
  -- The one entry of a table that has this number, which is not zero.
  pub record IsThe (n : ℕ) (xs : List A) (x : A) : Type 0 where
    pub front : List A
    pub back : List A
    pub whole : xs ≡ front ++ (x ∷ back)
    pub has_id : id x ≡ n
    pub nonzero : n ≢ 0
    pub before : All (λ y. id y ≢ n) front
    pub behind : All (λ y. id y ≢ n) back

  -- The entries are numbered one after the other.
  IsNumbered : ℕ → List A → Type 0
  IsNumbered base [] = Unit
  IsNumbered base (x ∷ xs) = (id x ≡ base) × IsNumbered (suc base) xs

  ids-IsNumbered :
      (base : ℕ) (xs : List A)
      → ((i : ℕ) (x : A) → get_from base xs i ≡ some x → id x ≡ i)
      → IsNumbered base xs
  unfolding IsNumbered
  ids-IsNumbered base [] h = tt
  ids-IsNumbered base (x ∷ xs) h = (
    h base x (ground (arith, get_from-cons base x xs base)),
    ids-IsNumbered (suc base) xs λ i y e.
        h i y (ground (arith, e, get_from-cons base x xs i, get_from_early (suc base) xs i)),
  )

  higher : (base m : ℕ) (xs : List A) → IsNumbered base xs → m < base → All (λ y. id y ≢ m) xs
  unfolding IsNumbered
  higher base m [] h less = tt
  higher base m (x ∷ xs) (e, h) less = (omega (arith, e), higher (suc base) m xs h (omega arith))

  get_from-IsThe :
      (base n : ℕ) (xs : List A) (x : A)
      → n ≢ 0
      → IsNumbered base xs
      → get_from base xs n ≡ some x
      → IsThe n xs x
  unfolding IsNumbered
  get_from-IsThe base n [] x nz h e = cc (e, get_from_empty base n)
  get_from-IsThe base n (y ∷ xs) x nz (ey, h) e = elim (Bool-cases (n == base)) [
    | inl b ↦
        let at : n ≡ base = (==_iff n base).0 b in
        let same : y ≡ x = ground (arith, e, b, get_from-cons base y xs n) in
        subst (λ z. IsThe n (y ∷ xs) z) same
          (record {
            front = [];
            back = xs;
            whole = refl;
            has_id = ey ∙ sym at;
            nonzero = nz;
            before = tt;
            behind = higher (suc base) n xs h (omega (arith, at));
          })
    | inr b ↦
        let rest =
          get_from-IsThe (suc base) n xs x nz h (ground (arith, e, b, get_from-cons base y xs n)) in
        record {
          front = y ∷ rest.front;
          back = rest.back;
          whole = ap (λ ys. y ∷ ys) rest.whole;
          has_id = rest.has_id;
          nonzero = nz;
          before = (ground (arith, ey, b), rest.before);
          behind = rest.behind;
        }
  ]

  get_from_at :
      (base n : ℕ) (front back : List A) (x : A)
      → IsNumbered base (front ++ (x ∷ back))
      → id x ≡ n
      → All (λ y. id y ≢ n) front
      → get_from base (front ++ (x ∷ back)) n ≡ some x
  unfolding IsNumbered
  get_from_at base n [] back x (ex, h) e q = ground (arith, ex, e, get_from-cons base x back n)
  get_from_at base n (y ∷ front) back x (ey, h) e (ne, q) = ground (
    arith,
    ey,
    ne,
    get_from-cons base y (front ++ (x ∷ back)) n,
    get_from_at (suc base) n front back x h e q,
  )

  -- In a table numbered from 1, numbers and places agree.
  module _ (xs : List A) (ids : (i : ℕ) (x : A) → get_from 1 xs i ≡ some x → id x ≡ i) where
    pub place-IsThe : (n : ℕ) (x : A) → get_from 1 xs n ≡ some x → IsThe n xs x
    unfolding get_from
    place-IsThe zero x e = cc
    place-IsThe (suc n) x e =
        get_from-IsThe 1 (suc n) xs x (omega arith) (ids-IsNumbered 1 xs ids) e

    pub IsThe-place : (n : ℕ) (x : A) → IsThe n xs x → get_from 1 xs n ≡ some x
    IsThe-place n x t =
        let at : get_from 1 (t.front ++ (x ∷ t.back)) n ≡ some x =
          get_from_at 1 n t.front t.back x
            (subst (λ ys. IsNumbered 1 ys) t.whole (ids-IsNumbered 1 xs ids)) t.has_id t.before in
        subst (λ ys. get_from 1 ys n ≡ some x) (sym t.whole) at

-- An entry whose image under `f` is this.
pub record IsImage {A B : Type 0} (f : A → B) (o : Option A) (k : B) : Type 0 where
  pub entry : A
  pub at : o ≡ some entry
  pub image : f entry ≡ k

module _ {A B : Type 0} (f : A → B) where
  pub get_from-map :
      (base : ℕ) (xs : List A) (i : ℕ) (x : A)
      → get_from base xs i ≡ some x
      → get_from base (map f xs) i ≡ some (f x)
  get_from-map base [] i x e = cc (e, get_from_empty base i)
  get_from-map base (y ∷ xs) i x e = elim (Bool-cases (i == base)) [
    | inl b ↦
        let same : y ≡ x = ground (arith, e, b, get_from-cons base y xs i) in
        ground (arith, b, ap f same, get_from-cons base (f y) (map f xs) i)
    | inr b ↦
        let rest =
          get_from-map (suc base) xs i x (ground (arith, e, b, get_from-cons base y xs i)) in
        ground (arith, b, rest, get_from-cons base (f y) (map f xs) i)
  ]

  pub get_from-IsImage :
      (base : ℕ) (xs : List A) (i : ℕ) (k : B)
      → get_from base (map f xs) i ≡ some k
      → IsImage f (get_from base xs i) k
  get_from-IsImage base [] i k e = cc (e, get_from_empty base i)
  get_from-IsImage base (y ∷ xs) i k e = elim (Bool-cases (i == base)) [
    | inl b ↦ record {
      entry = y;
      at = ground (arith, b, get_from-cons base y xs i);
      image = ground (arith, e, b, get_from-cons base (f y) (map f xs) i);
    }
    | inr b ↦
        let rest =
          get_from-IsImage (suc base) xs i k
            (ground (arith, e, b, get_from-cons base (f y) (map f xs) i)) in
        record {
          entry = rest.entry;
          at = ground (arith, b, rest.at, get_from-cons base y xs i);
          image = rest.image;
        }
  ]
