-- ===== src/Tui/Laws.antt =====
-- What the rows of the live table count.
use php_fast_profile.Base.{
  ℕ, ◌+◌, ◌%◌, ◌^◌, List, [], ◌∷◌, Bool, true, false, not, ◌&&◌, ◌||◌, ◌≡◌, refl, arith,
  if◌then◌else◌, eqb, list_eq, nat_eq, list_beq_iff, Bool-cases, inl, inr,
}
use php_fast_profile.Base.Map.{HashMap, lookup, upsert, value_or, lookup-upsert}
use php_fast_profile.Base.Text.{Text}
use php_fast_profile.Zend.Frame.{Frame, qualified_name}
use php_fast_profile.Tui.{
  Counts, Aggregator, default_counts, one_exclusive, one_inclusive, increment, is_seen,
  count_inclusive, count_rows, record_stack,
}

abbrev pub row : Text → HashMap Text Counts → Counts
row k rows = value_or default_counts (lookup k rows)

row-upsert :
    (n k : Text) (f : Counts → Counts) (rows : HashMap Text Counts)
    → row k (upsert n default_counts f rows) ≡ (if eqb n k then f (row k rows) else row k rows)
row-upsert n k f rows = ground (arith, lookup-upsert n k default_counts f rows, list_beq_iff n k)

-- Whether a stack has a function of this name.
unfoldable pub shows : Text → List Frame → Bool
shows k [] = false
shows k (f ∷ frames) = eqb (qualified_name f) k || shows k frames

count_inclusive-row :
    (k : Text) (frames : List Frame) (seen : List Text) (rows : HashMap Text Counts)
    → row k (count_inclusive frames seen rows)
      ≡ (if shows k frames && not (is_seen k seen) then one_inclusive (row k rows) else row k rows)
unfolding count_inclusive shows
count_inclusive-row k [] seen rows = refl
count_inclusive-row k (f ∷ frames) seen rows = elim (Bool-cases (is_seen (qualified_name f) seen)) [
  | inl e ↦
      rw e (
        ground
          (arith, e, count_inclusive-row k frames seen rows, list_beq_iff (qualified_name f) k))
  | inr e ↦ rw e (
      ground (
        arith,
        e,
        count_inclusive-row k frames (qualified_name f ∷ seen)
            (upsert (qualified_name f) default_counts one_inclusive rows),
        row-upsert (qualified_name f) k one_inclusive rows,
        list_beq_iff (qualified_name f) k,
      ))
]

-- Whether a stack's innermost function has this name.
unfoldable pub ends_in : Text → List Frame → Bool
ends_in k [] = false
ends_in k (f ∷ frames) = eqb (qualified_name f) k

pub count_if : (List Frame → Bool) → List (List Frame) → ℕ
count_if p [] = 0
count_if p (frames ∷ samples) =
    let later = count_if p samples in if p frames then later + 1 else later

-- The samples of a table, oldest first, each at its time.
unfoldable pub record_all : List (ℕ × List Frame) → Aggregator → Aggregator
record_all [] agg = agg
record_all ((now, frames) ∷ samples) agg = record_all samples (record_stack now frames agg)

unfoldable pub stacks_of : List (ℕ × List Frame) → List (List Frame)
stacks_of [] = []
stacks_of ((now, frames) ∷ samples) = frames ∷ stacks_of samples

pub count_rows-row :
    (k : Text) (frames : List Frame) (rows : HashMap Text Counts)
    → ((row k (count_rows frames rows)).exclusive
        ≡ (if ends_in k frames then increment (row k rows).exclusive else (row k rows).exclusive))
      × ((row k (count_rows frames rows)).inclusive
          ≡ (if shows k frames then increment (row k rows).inclusive else (row k rows).inclusive))
unfolding count_rows ends_in shows
count_rows-row k [] rows = (refl, refl)
count_rows-row k (f ∷ frames) rows =
    let one = upsert (qualified_name f) default_counts one_exclusive rows in
    let counted = count_inclusive-row k (f ∷ frames) [] one in
    let leaf = row-upsert (qualified_name f) k one_exclusive rows in
    (ground (arith, counted, leaf), ground (arith, counted, leaf))

-- One more step of a counter before the rest of the count.
step :
    (b : Bool) (n later : ℕ)
    → ((if b then increment n else n) + later) % 2 ^ 64
      ≡ (n + (if b then later + 1 else later)) % 2 ^ 64
step true n later = omega arith
step false n later = refl

-- After any samples, the row of a function has grown by the number of samples that end in it, and
-- by the number of samples that show it anywhere, once for each sample however often it recurs, on
-- 64-bit counters.
pub rows-record_all :
    (k : Text) (samples : List (ℕ × List Frame)) (agg : Aggregator)
    → ((row k (record_all samples agg).rows).exclusive % 2 ^ 64
        ≡ ((row k agg.rows).exclusive + count_if (ends_in k) (stacks_of samples)) % 2 ^ 64)
      × ((row k (record_all samples agg).rows).inclusive % 2 ^ 64
          ≡ ((row k agg.rows).inclusive + count_if (shows k) (stacks_of samples)) % 2 ^ 64)
unfolding record_all stacks_of count_if record_stack
rows-record_all k [] agg = (ground arith, ground arith)
rows-record_all k ((now, frames) ∷ samples) agg =
    let (ex, inc) = rows-record_all k samples (record_stack now frames agg) in
    let (one, also) = count_rows-row k frames agg.rows in
    (
      cc (
        ex,
        one,
        step (ends_in k frames) (row k agg.rows).exclusive
            (count_if (ends_in k) (stacks_of samples)),
      ),
      cc (
        inc,
        also,
        step (shows k frames) (row k agg.rows).inclusive (count_if (shows k) (stacks_of samples)),
      ),
    )
