-- ===== src/Tests/Screens.antt =====
-- The screen of the live table, the terminal and the signals, at concrete inputs.
use php_fast_profile.Base.{ℕ, List, [], ◌∷◌, All, true, false, not, ◌&&◌, ◌≡◌, refl, arith}
use php_fast_profile.Base.Act.{Outcome, ok, err, io_failed, succeeds, then_result}
use php_fast_profile.Base.Map.{HashMap}
use php_fast_profile.Base.Text.{Text, to_string}
use php_fast_profile.Zend.Frame.{Frame}
use php_fast_profile.Tui.{Counts, new}
use php_fast_profile.Tui.Laws.{record_all}
use php_fast_profile.Tui.Order.{IsRearranged, empty, put}
use php_fast_profile.Tui.Draw.{
  Prints, draw, TermCall, enable_raw_mode, disable_raw_mode, enter_screen, open_terminal, run,
}
use php_fast_profile.Tui.Draw.Laws.{IsScreen, draw_lem}
use php_fast_profile.Tui.Draw.Terminal.{is_raw, returns, run-is_raw}
use php_fast_profile.Sampler.Signal.{Signal, sigint, sigterm, no_signals, install, install_moves}
use php_fast_profile.Sampler.Signal.Laws.{LosesNone, IsInstalled, moments, install_lem}
use php_fast_profile.Tests.Memory.{frame}

abbrev prints : Prints
prints = record {
  seconds = λ t. to_string t;
  rate = λ n t. to_string n;
  percent = λ c n. to_string c;
}

same-IsRearranged : (rows : HashMap Text Counts) → IsRearranged rows rows
same-IsRearranged [] = empty
same-IsRearranged (r ∷ rows) = put r [] rows (same-IsRearranged rows)

abbrev samples : List (ℕ × List Frame)
samples = (3, frame ∷ []) ∷ (4, frame ∷ frame ∷ []) ∷ []

draw_lem_example :
    IsScreen prints
      (λ rows. rows)
      12
      (record_all samples new)
      true
      (draw prints (λ rows. rows) 12 5 (record_all samples new) true)
draw_lem_example = draw_lem prints (λ rows. rows) 12 5 samples true same-IsRearranged (omega arith)

-- The alternate screen cannot be entered, and raw mode stays on.
abbrev terminal : TermCall → Outcome (Unit {0})
terminal enter_screen = err io_failed
terminal call = ok tt

run-is_raw_example :
    ((run terminal (ok tt)).0
      ≡ then_result (terminal enter_screen) (then_result (terminal open_terminal) (ok tt)))
    × (is_raw (terminal enable_raw_mode) (terminal disable_raw_mode) false (run terminal (ok tt)).1
        ≡ not (
            succeeds (terminal enter_screen)
            && (succeeds (terminal open_terminal) && returns (ok tt))))
run-is_raw_example = run-is_raw terminal (ok tt) refl

abbrev answer : Signal → Outcome (Unit {0})
answer sigint = ok tt
answer sigterm = err io_failed

install_lem_example :
    All (LosesNone not) (moments (install_moves answer not) no_signals)
    × IsInstalled not (answer sigint) (answer sigterm) (install answer not no_signals)
install_lem_example = install_lem answer not
