-- ===== src/Tui/Draw/Terminal.antt =====
-- How the live table leaves the terminal.
use php_fast_profile.Base.{List, [], ◌∷◌, Bool, true, false, not, ◌&&◌, ◌≡◌, refl, if◌then◌else◌}
use php_fast_profile.Base.Act.{succeeds, then_result, Outcome, ok, err, panic}
use php_fast_profile.Tui.Draw.{
  TermCall, enable_raw_mode, enter_screen, open_terminal, disable_raw_mode, leave_screen,
  show_cursor, call_or_fail, restore, run,
}

-- Whether the terminal is in raw mode behind the calls, if it was as `raw` says before: a call that
-- fails does not change it. `enable` and `disable` are the answers to the two calls that do.
pub is_raw : (enable disable : Outcome (Unit {0})) → Bool → List TermCall → Bool
is_raw enable disable raw [] = raw
is_raw enable disable raw (enable_raw_mode ∷ calls) =
    is_raw enable disable (if succeeds enable then true else raw) calls
is_raw enable disable raw (disable_raw_mode ∷ calls) =
    is_raw enable disable (if succeeds disable then false else raw) calls
is_raw enable disable raw (enter_screen ∷ calls) = is_raw enable disable raw calls
is_raw enable disable raw (open_terminal ∷ calls) = is_raw enable disable raw calls
is_raw enable disable raw (leave_screen ∷ calls) = is_raw enable disable raw calls
is_raw enable disable raw (show_cursor ∷ calls) = is_raw enable disable raw calls

abbrev pub returns : Outcome (Unit {0}) → Bool
returns (ok _) = true
returns (err e) = true
returns panic = false

entered :
    (raw disable enter opened looped : Outcome (Unit {0}))
    → raw ≡ ok tt
    → ((call_or_fail raw enable_raw_mode [] λ a.
          call_or_fail enter enter_screen a
            λ b. call_or_fail opened open_terminal b λ c. restore looped c).0
        ≡ then_result enter (then_result opened looped))
      × (is_raw raw disable false
            (call_or_fail raw enable_raw_mode [] λ a.
              call_or_fail enter enter_screen a
                λ b. call_or_fail opened open_terminal b λ c. restore looped c).1
          ≡ not (succeeds enter && (succeeds opened && (returns looped && succeeds disable))))
unfolding call_or_fail restore is_raw
entered (err x) r b c d e = absurd cc
entered panic r b c d e = absurd cc
entered (ok _) (ok _) (ok _) (ok _) (ok _) e = (refl, refl)
entered (ok _) (err y) (ok _) (ok _) (ok _) e = (refl, refl)
entered (ok _) panic (ok _) (ok _) (ok _) e = (refl, refl)
entered (ok _) (ok _) (ok _) (ok _) (err x) e = (refl, refl)
entered (ok _) (err y) (ok _) (ok _) (err x) e = (refl, refl)
entered (ok _) panic (ok _) (ok _) (err x) e = (refl, refl)
entered (ok _) r (ok _) (ok _) panic e = (refl, refl)
entered (ok _) r (ok _) (err x) d e = (refl, refl)
entered (ok _) r (ok _) panic d e = (refl, refl)
entered (ok _) r (err x) c d e = (refl, refl)
entered (ok _) r panic c d e = (refl, refl)

-- If raw mode could be turned on, the result of the live table is the first failure of the other two
-- calls of its setup, or else that of its loop. It leaves raw mode on exactly if one of those calls
-- fails, or the loop panics, or the call that turns raw mode off fails, whose error is dropped; an
-- error of the loop does not leave it on.
pub run-is_raw :
    (terminal : TermCall → Outcome (Unit {0})) (looped : Outcome (Unit {0}))
    → terminal enable_raw_mode ≡ ok tt
    → ((run terminal looped).0
        ≡ then_result (terminal enter_screen) (then_result (terminal open_terminal) looped))
      × (is_raw (terminal enable_raw_mode) (terminal disable_raw_mode) false (run terminal looped).1
          ≡ not (
              succeeds (terminal enter_screen)
              && (succeeds (terminal open_terminal)
                  && (returns looped && succeeds (terminal disable_raw_mode)))))
unfolding run
run-is_raw terminal looped e =
    entered (terminal enable_raw_mode) (terminal disable_raw_mode) (terminal enter_screen)
      (terminal open_terminal) looped e
