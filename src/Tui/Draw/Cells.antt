-- ===== src/Tui/Draw/Cells.antt =====
-- What stands under each title of the live table.
use php_fast_profile.Base.{
  ℕ, List, [], ◌∷◌, ◌++◌, map, Option, none, some, ◌≡◌, refl, if◌then◌else◌, eqb, list_eq, nat_eq,
}
use php_fast_profile.Base.Text.{Text, codes}
use php_fast_profile.Tui.Order.{Row}
use php_fast_profile.Tui.Draw.{Prints, right8, cells}

-- The text of a row under a title.
unfoldable pub under : Text → List Text → List Text → Option Text
under title [] texts = none
under title (t ∷ titles) [] = none
under title (t ∷ titles) (text ∷ texts) =
    let later = under title titles texts in if eqb t title then some text else later

-- A row of the table shows a function with its counts, and their parts of the total in percent.
pub record ShowsRow (prints : Prints) (total : ℕ) (titles texts : List Text) (r : Row)
    : Type 0 where
  pub function : under (codes "FUNCTION") titles texts ≡ some r.0
  pub inclusive : under (codes "INCL") titles texts ≡ some (right8 r.1.inclusive)
  pub exclusive : under (codes "EXCL") titles texts ≡ some (right8 r.1.exclusive)
  pub inclusive_part :
      under (codes "INCL%") titles texts ≡ some (prints.percent r.1.inclusive total ++ codes "%")
  pub exclusive_part :
      under (codes "EXCL%") titles texts ≡ some (prints.percent r.1.exclusive total ++ codes "%")

-- Row by row.
pub data ShowsRows (prints : Prints) (total : ℕ) (titles : List Text)
    : List (List Text) → List Row → Type 0 where
  no_rows : ShowsRows prints total titles [] []
  one_more :
      {texts : List Text} {r : Row} {table : List (List Text)} {rows : List Row}
      → ShowsRow prints total titles texts r
      → ShowsRows prints total titles table rows
      → ShowsRows prints total titles (texts ∷ table) (r ∷ rows)

module _ (prints : Prints) (total : ℕ) where
  abbrev pub headings : List Text
  headings = codes "INCL%" ∷ codes "EXCL%" ∷ codes "INCL" ∷ codes "EXCL" ∷ codes "FUNCTION" ∷ []

  cells-ShowsRow : (r : Row) → ShowsRow prints total headings (cells prints total r) r
  unfolding cells under
  cells-ShowsRow (name, c) = record {
    function = refl;
    inclusive = refl;
    exclusive = refl;
    inclusive_part = refl;
    exclusive_part = refl;
  }

  pub cells-ShowsRows :
      (rows : List Row) → ShowsRows prints total headings (map (cells prints total) rows) rows
  cells-ShowsRows [] = no_rows
  cells-ShowsRows (r ∷ rows) = one_more (cells-ShowsRow r) (cells-ShowsRows rows)
