-- ===== src/Tui/Draw.antt =====
-- src/tui.rs, `draw` and `run`: what the live table shows, and how the terminal is set up and restored.
--
-- The layout, the borders and their titles are left out. The terminal is a parameter: whether each call of it succeeds, and the height of the table. The
-- numbers that the code computes and prints as `f64` are parameters too, by what they are made of.
pub mod Cells
pub mod Laws
pub mod Terminal
use php_fast_profile.Base.{
  ℕ, zero, suc, ◌-◌, max, length, List, [], ◌∷◌, ◌++◌, map, Option, none, some, Bool, true, false,
  ltb, if◌then◌else◌,
}
use php_fast_profile.Base.Act.{Outcome, ok, err, panic}
use php_fast_profile.Base.Map.{HashMap}
use php_fast_profile.Base.Text.{Text, codes, to_string}
use php_fast_profile.Tui.{Counts, Aggregator, top_rows}

-- The prints of floating-point numbers: `{:.1}` of nanoseconds in seconds, `{:.0}` of a number of
-- samples for such seconds, and `{:>5.1}` of a part of a whole in percent.
pub record Prints : Type 0 where
  pub seconds : ℕ → Text
  pub rate : ℕ → ℕ → Text
  pub percent : ℕ → ℕ → Text

-- `rows` are the rows that the table is handed: below its borders and its line of titles there is
-- room for one less than that.
pub record Screen : Type 0 where
  pub header : Text
  pub titles : List Text
  pub rows : List (List Text)
  pub footer : Text

unfoldable pub spaces : ℕ → Text
spaces zero = []
spaces (suc n) = b' ' ∷ spaces n

-- `{:>8}` of a number.
unfoldable pub right8 : ℕ → Text
right8 n = let digits = to_string n in spaces (8 - length digits) ++ digits

-- `t.elapsed()`, or 0.
unfoldable pub elapsed : ℕ → Option ℕ → ℕ
elapsed now none = 0
elapsed now (some t) = now - t

abbrev pub sort_name : Bool → Text
sort_name by_inclusive = if by_inclusive then codes "inclusive" else codes "exclusive"

-- The samples by which the header and the percentages go.
abbrev pub total_of : Aggregator → ℕ
total_of agg = max agg.samples 1

module _ (prints : Prints) where
  -- The rate of a time of 0 is 0.
  unfoldable pub rate_text : (total time : ℕ) → Text
  rate_text total time = if ltb 0 time then prints.rate total time else codes "0"

  unfoldable pub header_text : (total time : ℕ) → Bool → Text
  header_text total time by_inclusive =
      codes " pfp top — "
      ++ (to_string total
          ++ (codes " samples in "
              ++ (prints.seconds time
                  ++ (codes "s ("
                      ++ (rate_text total time
                          ++ (codes " Hz) — sort: " ++ sort_name by_inclusive))))))

  unfoldable pub cells : ℕ → Text × Counts → List Text
  cells total (name, c) =
      (prints.percent c.inclusive total ++ codes "%")
      ∷ (prints.percent c.exclusive total ++ codes "%")
      ∷ right8 c.inclusive
      ∷ right8 c.exclusive
      ∷ name
      ∷ []

  -- `draw`, at the time `now`, in a table of that height.
  unfoldable pub draw :
      (HashMap Text Counts → HashMap Text Counts) → (height now : ℕ) → Aggregator → Bool → Screen
  draw order height now agg by_inclusive = record {
    header = header_text (total_of agg) (elapsed now agg.started) by_inclusive;
    titles = codes "INCL%" ∷ codes "EXCL%" ∷ codes "INCL" ∷ codes "EXCL" ∷ codes "FUNCTION" ∷ [];
    rows = map (cells (total_of agg)) (top_rows order by_inclusive (height - 2) agg);
    footer = codes " q/Esc quit · i toggle sort · r reset";
  }

-- The calls on the terminal.
pub data TermCall : Type 0 where
  enable_raw_mode enter_screen open_terminal disable_raw_mode leave_screen show_cursor : TermCall

-- `call?`, by the answer to the call, and what follows it, behind the calls `done`.
unfoldable pub call_or_fail :
    Outcome (Unit {0})
    → TermCall
    → List TermCall
    → (List TermCall → Outcome (Unit {0}) × List TermCall)
    → Outcome (Unit {0}) × List TermCall
call_or_fail (ok _) call done rest = rest (done ++ (call ∷ []))
call_or_fail (err e) call done rest = (err e, done ++ (call ∷ []))
call_or_fail panic call done rest = (panic, done ++ (call ∷ []))

-- Behind the loop: the answers to the three calls are dropped, so a failure of one of them changes
-- neither the result nor the calls behind it. A panic of the loop leaves the terminal as it is.
unfoldable pub restore : Outcome (Unit {0}) → List TermCall → Outcome (Unit {0}) × List TermCall
restore panic done = (panic, done)
restore (ok _) done = (ok tt, done ++ (disable_raw_mode ∷ leave_screen ∷ show_cursor ∷ []))
restore (err e) done = (err e, done ++ (disable_raw_mode ∷ leave_screen ∷ show_cursor ∷ []))

-- `run`, with the result of its loop, and the calls on the terminal outside it.
unfoldable pub run :
    (TermCall → Outcome (Unit {0})) → Outcome (Unit {0}) → Outcome (Unit {0}) × List TermCall
run terminal looped = call_or_fail (terminal enable_raw_mode) enable_raw_mode [] λ raw.
    call_or_fail (terminal enter_screen) enter_screen raw λ entered.
      call_or_fail (terminal open_terminal) open_terminal entered λ opened. restore looped opened
