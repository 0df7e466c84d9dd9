-- ===== src/Tui/Loop.antt =====
-- src/tui.rs, `run_loop`: the live table's loop.
--
-- A round of the loop is a function of what it meets: the stop flag, the samples that wait in the
-- channel and whether their senders are gone, the time, whether the table can be drawn, and the
-- event of the terminal. The terminal is left out; a run is the list of its rounds.
pub mod Laws
use php_fast_profile.Base.{
  ℕ, ◌+◌, ◌-◌, List, [], ◌∷◌, ◌++◌, Option, none, some, Bool, true, false, not, leb, if◌then◌else◌,
}
use php_fast_profile.Base.Act.{Outcome, ok, err, panic}
use php_fast_profile.Zend.Frame.{Frame}
use php_fast_profile.Tui.{Aggregator, new, record_stack, reset}

-- The keys that the loop knows.
pub data KeyCode : Type 0 where
  q esc i r other_key : KeyCode

pub data Event : Type 0 where
  pressed : KeyCode → Event
  -- A key event of another kind, or an event that is no key.
  other_event : Event

pub record Round : Type 0 where
  pub stop : Bool
  -- The samples received, each with the time at which it is recorded.
  pub received : List (ℕ × List Frame)
  pub disconnected : Bool
  pub now : ℕ
  pub drawn : Outcome (Unit {0})
  -- `none` if the poll times out.
  pub event : Outcome (Option Event)

pub record View : Type 0 where
  pub agg : Aggregator
  pub by_inclusive : Bool
  pub last_draw : ℕ

-- A loop that goes on, or that has returned.
pub data Loop : Type 0 where
  goes : View → Loop
  returns : Outcome (Unit {0}) → View → Loop

unfoldable pub drain : List (ℕ × List Frame) → Aggregator → Aggregator
drain [] agg = agg
drain ((now, frames) ∷ received) agg = drain received (record_stack now frames agg)

unfoldable pub press : ℕ → KeyCode → View → Loop
press now q view = returns (ok tt) view
press now esc view = returns (ok tt) view
press now i view = goes (record view { by_inclusive = not view.by_inclusive })
press now r view = goes (record view { agg = reset now view.agg })
press now other_key view = goes view

unfoldable pub on_event : ℕ → Outcome (Option Event) → View → Loop
on_event now (ok none) view = goes view
on_event now (ok (some (pressed key))) view = press now key view
on_event now (ok (some other_event)) view = goes view
on_event now (err e) view = returns (err e) view
on_event now panic view = returns panic view

unfoldable pub on_draw : Round → Outcome (Unit {0}) → View → Loop
on_draw round (ok _) view = on_event round.now round.event (record view { last_draw = round.now })
on_draw round (err e) view = returns (err e) view
on_draw round panic view = returns panic view

unfoldable pub draw_if_due : ℕ → Round → View → Loop
draw_if_due tick round view =
    if leb tick (round.now - view.last_draw)
    then on_draw round round.drawn view
    else on_event round.now round.event view

-- One round of `run_loop`.
unfoldable pub one_round : ℕ → Round → View → Loop
one_round tick round view =
    let drained : View = record view { agg = drain round.received view.agg } in
    if round.stop
    then returns (ok tt) view
    else (if round.disconnected then returns (ok tt) drained else draw_if_due tick round drained)

unfoldable pub go_on : (View → Loop) → Loop → Loop
go_on rest (goes view) = rest view
go_on rest (returns result view) = returns result view

unfoldable pub run_loop : ℕ → List Round → View → Loop
run_loop tick [] view = goes view
run_loop tick (round ∷ rounds) view = go_on (run_loop tick rounds) (one_round tick round view)

-- The view before the first round; the time before the start of the clock is 0.
unfoldable pub first_view : ℕ → ℕ → View
first_view tick now = record { agg = new; by_inclusive = true; last_draw = now - tick }
