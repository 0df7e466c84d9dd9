-- ===== src/Tui.antt =====
-- src/tui.rs, `Aggregator`: the counts that the live table shows.
--
-- The time is an argument. The order in which the hash map yields its rows is the parameter `order`.
pub mod Draw
pub mod Laws
pub mod Loop
pub mod Order
use php_fast_profile.Base.{
  ℕ, ◌+◌, ◌%◌, ◌^◌, List, [], ◌∷◌, Option, none, some, Bool, true, false, any, take, leb,
  if◌then◌else◌, eqb, list_eq, nat_eq,
}
use php_fast_profile.Base.Map.{HashMap, upsert}
use php_fast_profile.Base.Text.{Text}
use php_fast_profile.Zend.Frame.{Frame, qualified_name}

pub record Counts : Type 0 where
  pub exclusive : ℕ
  pub inclusive : ℕ

abbrev pub default_counts : Counts
default_counts = record { exclusive = 0; inclusive = 0 }

pub record Aggregator : Type 0 where
  pub rows : HashMap Text Counts
  pub samples : ℕ
  pub started : Option ℕ

abbrev pub new : Aggregator
new = record { rows = []; samples = 0; started = none }

-- `+= 1` on a `u64`.
abbrev pub increment : ℕ → ℕ
increment n = (n + 1) % 2 ^ 64

abbrev pub one_exclusive : Counts → Counts
one_exclusive c = record c { exclusive = increment c.exclusive }

abbrev pub one_inclusive : Counts → Counts
one_inclusive c = record c { inclusive = increment c.inclusive }

start_at : ℕ → Option ℕ → Option ℕ
start_at now none = some now
start_at now (some t) = some t

abbrev pub is_seen : Text → List Text → Bool
is_seen k seen = any (λ j. eqb j k) seen

-- The loop of `record`, with the names that were seen.
unfoldable pub count_inclusive : List Frame → List Text → HashMap Text Counts → HashMap Text Counts
count_inclusive [] seen rows = rows
count_inclusive (f ∷ frames) seen rows =
    let k = qualified_name f in
    let known = is_seen k seen in
    count_inclusive frames (if known then seen else k ∷ seen)
      (if known then rows else upsert k default_counts one_inclusive rows)

unfoldable pub count_rows : List Frame → HashMap Text Counts → HashMap Text Counts
count_rows [] rows = rows
count_rows (leaf ∷ frames) rows =
    count_inclusive (leaf ∷ frames) []
      (upsert (qualified_name leaf) default_counts one_exclusive rows)

count_stack : List Frame → ℕ → ℕ
count_stack [] n = n
count_stack (f ∷ frames) n = increment n

-- `Aggregator::record`, at the time `now`.
unfoldable pub record_stack : ℕ → List Frame → Aggregator → Aggregator
unfolding start_at count_rows count_stack
record_stack now frames agg = record {
  rows = count_rows frames agg.rows;
  samples = count_stack frames agg.samples;
  started = start_at now agg.started;
}

unfoldable pub reset : ℕ → Aggregator → Aggregator
reset now agg = record { rows = []; samples = 0; started = some now }

-- The key by which `top_rows` sorts, the highest first.
abbrev pub sort_key : Bool → Counts → ℕ
sort_key by_inclusive c = if by_inclusive then c.inclusive else c.exclusive

-- A row is placed before the first that is not higher, so rows with one key keep their order.
unfoldable pub place_row : Bool → Text × Counts → HashMap Text Counts → HashMap Text Counts
place_row by_inclusive r [] = r ∷ []
place_row by_inclusive r (q ∷ rows) =
    let later = place_row by_inclusive r rows in
    if leb (sort_key by_inclusive q.1) (sort_key by_inclusive r.1) then r ∷ q ∷ rows else q ∷ later

unfoldable pub sort_rows : Bool → HashMap Text Counts → HashMap Text Counts
sort_rows by_inclusive [] = []
sort_rows by_inclusive (r ∷ rows) = place_row by_inclusive r (sort_rows by_inclusive rows)

unfoldable pub top_rows :
    (HashMap Text Counts → HashMap Text Counts) → Bool → ℕ → Aggregator → HashMap Text Counts
top_rows order by_inclusive limit agg = take limit (sort_rows by_inclusive (order agg.rows))
