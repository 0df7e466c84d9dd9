-- ===== src/Sampler/Signal.antt =====
-- src/sampler.rs, the module `ctrlc_like`: the handler of SIGINT and SIGTERM.
--
-- `F` is what the callback acts on, such as a stop flag. A signal that is not caught ends the
-- process, as is its default. What `signal` answers is a parameter.
pub mod Laws
use php_fast_profile.Base.{List, [], ◌∷◌, Option, none, some, Bool, true, false, if◌then◌else◌}
use php_fast_profile.Base.Act.{Outcome, ok, err, panic, Act, pure}

pub data Signal : Type 0 where
  sigint sigterm : Signal

-- The static `HANDLER`, with whether its lock is poisoned, and the signals that `on_signal` gets.
pub record Signals (F : Type 0) : Type 0 where
  pub handler : Option (F → F)
  pub poisoned : Bool
  pub int_caught : Bool
  pub term_caught : Bool

-- A process that goes on, or that the signal has ended.
pub data Delivered (F : Type 0) : Type 0 where
  goes_on : F → Delivered F
  killed : Delivered F

module _ {F : Type 0} where
  -- Before anything is installed.
  abbrev pub no_signals : Signals F
  no_signals = record { handler = none; poisoned = false; int_caught = false; term_caught = false }

  abbrev pub is_caught : Signal → Signals F → Bool
  is_caught sigint s = s.int_caught
  is_caught sigterm s = s.term_caught

  abbrev pub call_back : Option (F → F) → F → F
  call_back none flag = flag
  call_back (some cb) flag = cb flag

  unfoldable pub on_signal : Signals F → F → F
  on_signal s flag = if s.poisoned then flag else call_back s.handler flag

  unfoldable pub deliver : Signal → Signals F → F → Delivered F
  deliver sig s flag = if is_caught sig s then goes_on (on_signal s flag) else killed

  -- `*HANDLER.lock().unwrap() = Some(Box::new(cb))`
  unfoldable pub set_handler : (F → F) → Act (Signals F) (Unit {0})
  set_handler cb s = if s.poisoned then (panic, s) else (ok tt, record s { handler = some cb })

  unfoldable pub catch_signal : Signal → Signals F → Signals F
  catch_signal sigint s = record s { int_caught = true }
  catch_signal sigterm s = record s { term_caught = true }

  -- `signal::signal(sig, SigHandler::Handler(on_signal))?`, by its answer.
  unfoldable pub register : Outcome (Unit {0}) → Signal → Act (Signals F) (Unit {0})
  register (ok _) sig s = (ok tt, catch_signal sig s)
  register (err e) sig s = (err e, s)
  register panic sig s = (panic, s)

  -- Moves one after the other, until one fails.
  unfoldable pub run_moves : List (Act (Signals F) (Unit {0})) → Act (Signals F) (Unit {0})
  run_moves [] s = (ok tt, s)
  run_moves (move ∷ moves) s =
      let (r, t) = move s in
      elim r [ ok _ ↦ run_moves moves t | err e ↦ (err e, t) | panic ↦ (panic, t) ]

  unfoldable pub install_moves :
      (Signal → Outcome (Unit {0})) → (F → F) → List (Act (Signals F) (Unit {0}))
  install_moves answer cb =
      set_handler cb ∷ register (answer sigint) sigint ∷ register (answer sigterm) sigterm ∷ []

  unfoldable pub install : (Signal → Outcome (Unit {0})) → (F → F) → Act (Signals F) (Unit {0})
  install answer cb = run_moves (install_moves answer cb)
