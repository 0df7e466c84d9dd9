-- ===== src/Tui/Draw/Laws.antt =====
-- The numbers that the live table shows.
use php_fast_profile.Base.{
  ℕ, ◌+◌, ◌-◌, ◌≤◌, ◌<◌, ◌^◌, max, length, List, [], ◌∷◌, ◌++◌, All, Bool, true, false, ◌≡◌, refl,
  sym, arith, if◌then◌else◌, eqb, list_eq, nat_eq, list_beq_iff, none, some,
}
use mathlib.Core.Path.{subst}
use php_fast_profile.Base.Map.{HashMap, lookup, upsert, value_or, IsMap, IsMap-upsert}
use php_fast_profile.Base.Text.{Text}
use php_fast_profile.Zend.Frame.{Frame, qualified_name}
use php_fast_profile.Tui.{
  Counts, Aggregator, new, default_counts, one_inclusive, is_seen, count_inclusive, count_rows,
  count_stack, increment, record_stack, top_rows,
}
use php_fast_profile.Tui.Laws.{row, shows, ends_in, count_rows-row, record_all}
use php_fast_profile.Tui.Order.{Row, IsRearranged, empty, put, IsTop, top_rows_lem}
use php_fast_profile.Tui.Draw.Cells.{ShowsRows, cells-ShowsRows}
use php_fast_profile.Tui.Draw.{Prints, Screen, total_of, draw}

-- The counts of a function are within each other and the number of samples.
abbrev pub IsWithin : ℕ → Counts → Type 0
IsWithin n c = (c.exclusive ≤ c.inclusive) × (c.inclusive ≤ n)

module _ (k : Text) where
  ends_in-shows : (frames : List Frame) → ends_in k frames ≡ true → shows k frames ≡ true
  unfolding ends_in shows
  ends_in-shows [] e = cc
  ends_in-shows (f ∷ frames) e = ground (arith, e)

  record_stack-IsWithin :
      (now : ℕ) (frames : List Frame) (agg : Aggregator)
      → agg.samples + 1 < 2 ^ 64
      → IsWithin agg.samples (row k agg.rows)
      → IsWithin (record_stack now frames agg).samples (row k (record_stack now frames agg).rows)
        × ((record_stack now frames agg).samples ≤ agg.samples + 1)
  unfolding record_stack count_stack
  record_stack-IsWithin now [] agg small h = (h, omega arith)
  record_stack-IsWithin now (f ∷ frames) agg small h =
      let (ex, inc) = count_rows-row k (f ∷ frames) agg.rows in
      within (ends_in k (f ∷ frames)) (shows k (f ∷ frames)) (ends_in-shows (f ∷ frames)) ex inc
    where
      within :
          {c : Counts} (b d : Bool)
          → (b ≡ true → d ≡ true)
          → c.exclusive
            ≡ (if b then increment (row k agg.rows).exclusive else (row k agg.rows).exclusive)
          → c.inclusive
            ≡ (if d then increment (row k agg.rows).inclusive else (row k agg.rows).inclusive)
          → IsWithin (increment agg.samples) c × (increment agg.samples ≤ agg.samples + 1)
      within true true imp ex inc = omega (arith, ex, inc, h, small)
      within true false imp ex inc = cc (imp refl)
      within false true imp ex inc = omega (arith, ex, inc, h, small)
      within false false imp ex inc = omega (arith, ex, inc, h, small)

  record_all-IsWithin :
      (samples : List (ℕ × List Frame)) (agg : Aggregator)
      → agg.samples + length samples < 2 ^ 64
      → IsWithin agg.samples (row k agg.rows)
      → IsWithin (record_all samples agg).samples (row k (record_all samples agg).rows)
  unfolding record_all
  record_all-IsWithin [] agg small h = h
  record_all-IsWithin ((now, frames) ∷ samples) agg small h =
      let (within, more) = record_stack-IsWithin now frames agg (omega arith) h in
      record_all-IsWithin samples (record_stack now frames agg) (omega (arith, more, small)) within

count_inclusive-IsMap :
    (frames : List Frame) (seen : List Text) (rows : HashMap Text Counts)
    → IsMap rows
    → IsMap (count_inclusive frames seen rows)
unfolding count_inclusive
count_inclusive-IsMap [] seen rows h = h
count_inclusive-IsMap (f ∷ frames) seen rows h =
    count_inclusive-IsMap frames _ _ (if_known (is_seen (qualified_name f) seen))
  where
    if_known :
        (b : Bool)
        → IsMap (if b then rows else upsert (qualified_name f) default_counts one_inclusive rows)
    if_known true = h
    if_known false = IsMap-upsert (qualified_name f) default_counts one_inclusive rows h

record_stack-IsMap :
    (now : ℕ) (frames : List Frame) (agg : Aggregator)
    → IsMap agg.rows
    → IsMap (record_stack now frames agg).rows
unfolding record_stack count_rows
record_stack-IsMap now [] agg h = h
record_stack-IsMap now (f ∷ frames) agg h =
    count_inclusive-IsMap (f ∷ frames) [] _ (IsMap-upsert (qualified_name f) _ _ agg.rows h)

record_all-IsMap :
    (samples : List (ℕ × List Frame)) (agg : Aggregator)
    → IsMap agg.rows
    → IsMap (record_all samples agg).rows
unfolding record_all
record_all-IsMap [] agg h = h
record_all-IsMap ((now, frames) ∷ samples) agg h =
    record_all-IsMap samples (record_stack now frames agg) (record_stack-IsMap now frames agg h)

-- What holds of each function's row holds of each entry.
rows-All :
    (P : Counts → Type 0) (rows : HashMap Text Counts)
    → P default_counts
    → IsMap rows
    → ((k : Text) → P (row k rows))
    → All (λ r. P r.1) rows
unfolding lookup
rows-All P [] d h all = tt
rows-All P ((j, c) ∷ rows) d (fresh, h) all = (
  subst (λ (b : Bool). P (value_or default_counts (if b then some c else lookup j rows)))
      (beq_refl j) (all j),
  rows-All P rows d h (λ k. later (eqb j k) k refl (all k)),
)
  where
    beq_refl : (j : Text) → eqb j j ≡ true
    beq_refl j = ground (arith, list_beq_iff j j)

    later :
        (b : Bool) (k : Text)
        → eqb j k ≡ b
        → P (value_or default_counts (if b then some c else lookup k rows))
        → P (row k rows)
    later false k e p = p
    later true k e p =
        let same : j ≡ k = ground (arith, list_beq_iff j k, e) in
        let none_left : lookup k rows ≡ none = subst (λ q. lookup q rows ≡ none) same fresh in
        subst (λ o. P (value_or default_counts o)) (sym none_left) d

module _ (P : Row → Type 0) where
  All-insert :
      (r : Row) (front back : List Row) → P r → All P (front ++ back) → All P (front ++ (r ∷ back))
  All-insert r [] back p h = (p, h)
  All-insert r (q ∷ front) back p (hq, h) = (hq, All-insert r front back p h)

  All-rearranged : {xs ys : List Row} → IsRearranged xs ys → All P xs → All P ys
  All-rearranged empty h = tt
  All-rearranged (put r front back e) (p, h) = All-insert r front back p (All-rearranged e h)

  All-front : (xs ys : List Row) → All P (xs ++ ys) → All P xs
  All-front [] ys h = tt
  All-front (x ∷ xs) ys (p, h) = (p, All-front xs ys h)

-- What is shown of an aggregator.
pub record IsScreen (prints : Prints) (order : HashMap Text Counts → HashMap Text Counts)
    (height : ℕ) (agg : Aggregator) (by_inclusive : Bool) (screen : Screen) : Type 0 where
  pub shown : List Row
  pub rows : ShowsRows prints (total_of agg) screen.titles screen.rows shown
  pub top : IsTop by_inclusive (height - 2) (order agg.rows) shown
  pub within : All (λ r. IsWithin (total_of agg) r.1) shown

-- After fewer than 2^64 samples, and in whatever order the hash map yields its rows, `draw` hands the
-- table the rows with the highest of the chosen counts, the highest first, two fewer than the table
-- is high if there are so many. In each row the function, its two counts and their percentages stand
-- under their titles, and the exclusive count is at most the inclusive one, which is at most the
-- total by which the percentages go.
pub draw_lem :
    (prints : Prints) (order : HashMap Text Counts → HashMap Text Counts) (height now : ℕ)
    (samples : List (ℕ × List Frame)) (by_inclusive : Bool)
    → ((rows : HashMap Text Counts) → IsRearranged rows (order rows))
    → length samples < 2 ^ 64
    → IsScreen prints order height
        (record_all samples new)
        by_inclusive
        (draw prints order height now (record_all samples new) by_inclusive)
unfolding draw
draw_lem prints order height now samples by_inclusive any small =
    let agg = record_all samples new in
    let top = top_rows_lem order by_inclusive (height - 2) agg in
    let all : All (λ (r : Row). IsWithin (total_of agg) r.1) agg.rows =
      rows-All (λ c. IsWithin (total_of agg) c) agg.rows (omega arith, omega arith)
        (record_all-IsMap samples new tt)
        (λ k. widen (record_all-IsWithin k samples new (omega arith) (start k))) in
    record {
      shown = top_rows order by_inclusive (height - 2) agg;
      rows = cells-ShowsRows prints (total_of agg) _;
      top = top;
      within =
          All-front _ _ top.rest
            (All-rearranged _ top.rearranged (All-rearranged _ (any agg.rows) all));
    }
  where
    widen : {n : ℕ} {c : Counts} → IsWithin n c → IsWithin (max n 1) c
    widen (ex, inc) = (ex, omega arith)

    start : (k : Text) → IsWithin 0 (row k [])
    start k = unfold lookup in (omega arith, omega arith)
