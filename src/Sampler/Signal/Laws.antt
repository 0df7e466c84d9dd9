-- ===== src/Sampler/Signal/Laws.antt =====
-- No signal is lost while the handler is installed.
use php_fast_profile.Base.{
  List, [], ◌∷◌, All, some, Bool, true, false, ◌&&◌, ◌≡◌, refl, if◌then◌else◌,
}
use php_fast_profile.Base.Act.{succeeds, then_result, Outcome, ok, err, panic, Act}
use php_fast_profile.Sampler.Signal.{
  Signal, sigint, sigterm, Signals, goes_on, killed, no_signals, is_caught, on_signal, deliver,
  set_handler, catch_signal, register, run_moves, install_moves, install,
}

module _ {F : Type 0} where
  -- The states between the moves, and behind them.
  pub moments : List (Act (Signals F) (Unit {0})) → Signals F → List (Signals F)
  moments [] s = s ∷ []
  moments (move ∷ moves) s = s ∷ elim (move s).0 [
    | ok _ ↦ moments moves (move s).1
    | err e ↦ (move s).1 ∷ []
    | panic ↦ (move s).1 ∷ []
  ]

  -- A signal that comes in this state runs the callback if it is caught, and ends the process
  -- otherwise.
  pub record LosesNone (cb : F → F) (s : Signals F) : Type 0 where
    pub at :
        (sig : Signal) (flag : F)
        → deliver sig s flag ≡ (if is_caught sig s then goes_on (cb flag) else killed)

module _ {F : Type 0} (cb : F → F) where
  no_signals-LosesNone : LosesNone cb no_signals
  unfolding deliver on_signal
  no_signals-LosesNone = record { at = λ sig flag. lost sig flag }
    where
      lost :
          (sig : Signal) (flag : F)
          → deliver sig no_signals flag
            ≡ (if is_caught sig (no_signals {F = F}) then goes_on (cb flag) else killed)
      lost sigint flag = refl
      lost sigterm flag = refl

  handled-LosesNone :
      (i t : Bool)
      → LosesNone cb
          (record { handler = some cb; poisoned = false; int_caught = i; term_caught = t })
  unfolding deliver on_signal
  handled-LosesNone i t = record { at = λ sig flag. refl }

  moments-LosesNone :
      (a b : Outcome (Unit {0}))
      → All
          (LosesNone cb)
          (moments (set_handler cb ∷ register a sigint ∷ register b sigterm ∷ []) no_signals)
  unfolding moments set_handler register catch_signal
  moments-LosesNone (ok _) (ok _) = (
    no_signals-LosesNone,
    (
      handled-LosesNone false false,
      (handled-LosesNone true false, (handled-LosesNone true true, tt)),
    ),
  )
  moments-LosesNone (ok _) (err e) = (
    no_signals-LosesNone,
    (
      handled-LosesNone false false,
      (handled-LosesNone true false, (handled-LosesNone true false, tt)),
    ),
  )
  moments-LosesNone (ok _) panic = (
    no_signals-LosesNone,
    (
      handled-LosesNone false false,
      (handled-LosesNone true false, (handled-LosesNone true false, tt)),
    ),
  )
  moments-LosesNone (err e) b =
      (no_signals-LosesNone, (handled-LosesNone false false, (handled-LosesNone false false, tt)))
  moments-LosesNone panic b =
      (no_signals-LosesNone, (handled-LosesNone false false, (handled-LosesNone false false, tt)))

  -- What a run of the moves comes to.
  pub record IsInstalled (a b : Outcome (Unit {0})) (r : Outcome (Unit {0}) × Signals F)
      : Type 0 where
    pub result : r.0 ≡ then_result a b
    pub int_caught : r.1.int_caught ≡ succeeds a
    pub term_caught : r.1.term_caught ≡ succeeds a && succeeds b

  run_moves-IsInstalled :
      (a b : Outcome (Unit {0}))
      → IsInstalled a b
          (run_moves (set_handler cb ∷ register a sigint ∷ register b sigterm ∷ []) no_signals)
  unfolding run_moves set_handler register catch_signal
  run_moves-IsInstalled (ok _) (ok _) = record {
    result = refl;
    int_caught = refl;
    term_caught = refl;
  }
  run_moves-IsInstalled (ok _) (err e) = record {
    result = refl;
    int_caught = refl;
    term_caught = refl;
  }
  run_moves-IsInstalled (ok _) panic = record {
    result = refl;
    int_caught = refl;
    term_caught = refl;
  }
  run_moves-IsInstalled (err e) b = record { result = refl; int_caught = refl; term_caught = refl }
  run_moves-IsInstalled panic b = record { result = refl; int_caught = refl; term_caught = refl }

-- Whatever `signal` answers, while `install` runs for the first time and behind it, a signal that is
-- caught runs the callback, and one that is not ends the process, as it did before; so none is lost.
-- The result is the first failure, if there is one, and the signals caught are those whose
-- registration, and every one before it, succeeded.
pub install_lem :
    {F : Type 0} (answer : Signal → Outcome (Unit {0})) (cb : F → F)
    → All (LosesNone cb) (moments (install_moves answer cb) no_signals)
      × IsInstalled cb (answer sigint) (answer sigterm) (install answer cb no_signals)
unfolding install_moves install
install_lem answer cb = (
  moments-LosesNone cb (answer sigint) (answer sigterm),
  run_moves-IsInstalled cb (answer sigint) (answer sigterm),
)
