-- ===== src/Tui/Order.antt =====
-- The rows that the live table shows, and their order.
use php_fast_profile.Base.{
  ℕ, zero, suc, ◌≤◌, min, length, length-take, take, drop, List, [], ◌∷◌, ◌++◌, All, Bool, true,
  false, leb, leb→le, ◌≡◌, refl, sym, ap, arith, if◌then◌else◌,
}
use mathlib.Core.Path.{subst}
use php_fast_profile.Base.Map.{HashMap}
use php_fast_profile.Base.Text.{Text}
use php_fast_profile.Tui.{Counts, Aggregator, sort_key, place_row, sort_rows, top_rows}

abbrev pub Row : Type 0
Row = Text × Counts

-- The same rows, in another order: each was put somewhere among the ones before it.
pub data IsRearranged : List Row → List Row → Type 0 where
  empty : IsRearranged [] []
  put :
      {rows : List Row} (r : Row) (front back : List Row)
      → IsRearranged rows (front ++ back)
      → IsRearranged (r ∷ rows) (front ++ (r ∷ back))

module _ (by_inclusive : Bool) where
  abbrev pub key_of : Row → ℕ
  key_of r = sort_key by_inclusive r.1

  -- The highest first.
  abbrev pub IsDescending : List Row → Type 0
  IsDescending [] = Unit
  IsDescending (r ∷ rows) = All (λ q. key_of q ≤ key_of r) rows × IsDescending rows

  record IsPlaced (r : Row) (rows placed : List Row) : Type 0 where
    front : List Row
    back : List Row
    before : rows ≡ front ++ back
    after : placed ≡ front ++ (r ∷ back)

  IsPlaced-later :
      (r q : Row) (rows placed : List Row)
      → IsPlaced r rows placed
      → IsPlaced r (q ∷ rows) (q ∷ placed)
  IsPlaced-later r q rows placed h = record {
    front = q ∷ h.front;
    back = h.back;
    before = ap (λ l. q ∷ l) h.before;
    after = ap (λ l. q ∷ l) h.after;
  }

  place_row-IsPlaced : (r : Row) (rows : List Row) → IsPlaced r rows (place_row by_inclusive r rows)
  unfolding place_row
  place_row-IsPlaced r [] = record { front = []; back = []; before = refl; after = refl }
  place_row-IsPlaced r (q ∷ rows) =
      chosen (leb (key_of q) (key_of r)) (IsPlaced-later r q rows _ (place_row-IsPlaced r rows))
    where
      chosen :
          (b : Bool)
          → IsPlaced r (q ∷ rows) (q ∷ place_row by_inclusive r rows)
          → IsPlaced r (q ∷ rows) (if b then r ∷ q ∷ rows else q ∷ place_row by_inclusive r rows)
      chosen true h = record { front = []; back = q ∷ rows; before = refl; after = refl }
      chosen false h = h

  All-le :
      (m n : ℕ) (rows : List Row)
      → m ≤ n
      → All (λ q. key_of q ≤ m) rows
      → All (λ q. key_of q ≤ n) rows
  All-le m n [] le h = tt
  All-le m n (q ∷ rows) le (h, hs) = (omega arith, All-le m n rows le hs)

  place_row-All :
      (n : ℕ) (r : Row) (rows : List Row)
      → key_of r ≤ n
      → All (λ q. key_of q ≤ n) rows
      → All (λ q. key_of q ≤ n) (place_row by_inclusive r rows)
  unfolding place_row
  place_row-All n r [] h hs = (h, tt)
  place_row-All n r (q ∷ rows) h (hq, hs) =
      chosen (leb (key_of q) (key_of r)) (place_row-All n r rows h hs)
    where
      chosen :
          (b : Bool)
          → All (λ q. key_of q ≤ n) (place_row by_inclusive r rows)
          → All (λ q. key_of q ≤ n) (if b then r ∷ q ∷ rows else q ∷ place_row by_inclusive r rows)
      chosen true later = (h, (hq, hs))
      chosen false later = (hq, later)

  place_row-IsDescending :
      (r : Row) (rows : List Row) → IsDescending rows → IsDescending (place_row by_inclusive r rows)
  unfolding place_row
  place_row-IsDescending r [] h = (tt, tt)
  place_row-IsDescending r (q ∷ rows) (hq, hs) =
      chosen (leb (key_of q) (key_of r)) refl (place_row-IsDescending r rows hs)
    where
      chosen :
          (b : Bool)
          → leb (key_of q) (key_of r) ≡ b
          → IsDescending (place_row by_inclusive r rows)
          → IsDescending (if b then r ∷ q ∷ rows else q ∷ place_row by_inclusive r rows)
      chosen true e later =
          let le = leb→le (key_of q) (key_of r) e in
          ((le, All-le (key_of q) (key_of r) rows le hq), (hq, hs))
      chosen false e later =
          (place_row-All (key_of q) r rows (above (key_of q) (key_of r) e) hq, later)
        where
          above : (m n : ℕ) → leb m n ≡ false → n ≤ m
          above m n e = ground (arith, e)

  sort_rows-IsDescending : (rows : List Row) → IsDescending (sort_rows by_inclusive rows)
  unfolding sort_rows
  sort_rows-IsDescending [] = tt
  sort_rows-IsDescending (r ∷ rows) = place_row-IsDescending r _ (sort_rows-IsDescending rows)

  sort_rows-IsRearranged : (rows : List Row) → IsRearranged rows (sort_rows by_inclusive rows)
  unfolding sort_rows
  sort_rows-IsRearranged [] = empty
  sort_rows-IsRearranged (r ∷ rows) =
      let h = place_row-IsPlaced r (sort_rows by_inclusive rows) in
      subst (λ l. IsRearranged (r ∷ rows) l) (sym h.after)
        (put r h.front h.back
          (subst (λ l. IsRearranged rows l) h.before (sort_rows-IsRearranged rows)))

  -- The rows shown, with the ones that are left out behind them.
  pub record IsTop (limit : ℕ) (rows shown : List Row) : Type 0 where
    pub rest : List Row
    pub descending : IsDescending (shown ++ rest)
    pub rearranged : IsRearranged rows (shown ++ rest)
    pub size : length shown ≡ min limit (length (shown ++ rest))

take-drop : (n : ℕ) (rows : List Row) → take n rows ++ drop n rows ≡ rows
take-drop zero rows = refl
take-drop (suc n) [] = refl
take-drop (suc n) (r ∷ rows) = ap (λ l. r ∷ l) (take-drop n rows)

-- In whatever order the hash map yields its rows, the table shows the first of them, as many as
-- there is room for, when they are sorted by the chosen count, the highest first; so no row that is
-- left out has a higher count than one that is shown.
pub top_rows_lem :
    (order : HashMap Text Counts → HashMap Text Counts) (by_inclusive : Bool) (limit : ℕ)
    (agg : Aggregator)
    → IsTop by_inclusive limit (order agg.rows) (top_rows order by_inclusive limit agg)
unfolding top_rows
top_rows_lem order by_inclusive limit agg =
    let sorted = sort_rows by_inclusive (order agg.rows) in
    let whole : take limit sorted ++ drop limit sorted ≡ sorted = take-drop limit sorted in
    record {
      rest = drop limit sorted;
      descending =
          subst (λ l. IsDescending by_inclusive l) (sym whole)
            (sort_rows-IsDescending by_inclusive (order agg.rows));
      rearranged =
          subst (λ l. IsRearranged (order agg.rows) l) (sym whole)
            (sort_rows-IsRearranged by_inclusive (order agg.rows));
      size = rw whole (length-take limit sorted);
    }
