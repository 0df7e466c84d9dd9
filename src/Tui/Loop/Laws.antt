-- ===== src/Tui/Loop/Laws.antt =====
-- What the live table shows while its loop goes on.
use php_fast_profile.Base.{
  ℕ, ◌-◌, ◌%◌, ◌^◌, List, [], ◌∷◌, ◌++◌, Option, none, some, Bool, true, false, leb, ◌≡◌, refl, ap,
  ◌∙◌, arith, if◌then◌else◌,
}
use php_fast_profile.Base.Act.{Outcome, ok, err, panic}
use mathlib.Core.Path.{subst}
use php_fast_profile.Base.Map.{lookup}
use php_fast_profile.Base.Text.{Text}
use php_fast_profile.Zend.Frame.{Frame}
use php_fast_profile.Tui.{Aggregator, record_stack, reset, new, default_counts}
use php_fast_profile.Tui.Laws.{
  record_all, stacks_of, rows-record_all, row, count_if, ends_in, shows,
}
use php_fast_profile.Tui.Loop.{
  Round, View, Loop, goes, returns, Event, pressed, other_event, KeyCode, q, esc, i, r, other_key,
  drain, press, on_event, on_draw, draw_if_due, one_round, go_on, run_loop, first_view,
}

abbrev pub resets : Outcome (Option Event) → Bool
resets (ok (some (pressed r))) = true
resets event = false

-- The samples received since the key `r` was last pressed, behind the samples `kept` before.
pub since_reset : List (ℕ × List Frame) → List Round → List (ℕ × List Frame)
since_reset kept [] = kept
since_reset kept (round ∷ rounds) =
    since_reset (if resets round.event then [] else kept ++ round.received) rounds

drain-record_all :
    (kept received : List (ℕ × List Frame)) (agg : Aggregator)
    → drain received (record_all kept agg) ≡ record_all (kept ++ received) agg
unfolding drain record_all
drain-record_all [] [] agg = refl
drain-record_all [] ((now, frames) ∷ received) agg =
    drain-record_all [] received (record_stack now frames agg)
drain-record_all ((now, frames) ∷ kept) received agg =
    drain-record_all kept received (record_stack now frames agg)

view_of : View → Loop → View
view_of d (goes v) = v
view_of d (returns result v) = d

-- The table is that of the samples `kept`, from a cleared one.
pub record IsTable (kept : List (ℕ × List Frame)) (agg : Aggregator) : Type 0 where
  pub base : Aggregator
  pub cleared : base.rows ≡ []
  pub table : agg ≡ record_all kept base

-- A loop that goes on with such a table.
unfoldable pub IsGoing : List (ℕ × List Frame) → Loop → Type 0
IsGoing kept (goes v) = IsTable kept v.agg
IsGoing kept (returns result v) = Unit

press-IsGoing :
    (now : ℕ) (key : KeyCode) (kept : List (ℕ × List Frame)) (view : View)
    → IsTable kept view.agg
    → IsGoing (if resets (ok (some (pressed key))) then [] else kept) (press now key view)
unfolding IsGoing press
press-IsGoing now q kept view h = tt
press-IsGoing now esc kept view h = tt
press-IsGoing now i kept view h = h
press-IsGoing now r kept view h = record {
  base = reset now view.agg;
  cleared = unfold reset in refl;
  table = unfold record_all in refl;
}
press-IsGoing now other_key kept view h = h

on_event-IsGoing :
    (now : ℕ) (event : Outcome (Option Event)) (kept : List (ℕ × List Frame)) (view : View)
    → IsTable kept view.agg
    → IsGoing (if resets event then [] else kept) (on_event now event view)
unfolding on_event
on_event-IsGoing now (ok none) kept view h = unfold IsGoing in h
on_event-IsGoing now (ok (some (pressed key))) kept view h = press-IsGoing now key kept view h
on_event-IsGoing now (ok (some other_event)) kept view h = unfold IsGoing in h
on_event-IsGoing now (err e) kept view h = unfold IsGoing in tt
on_event-IsGoing now panic kept view h = unfold IsGoing in tt

on_draw-IsGoing :
    (round : Round) (drawn : Outcome (Unit {0})) (kept : List (ℕ × List Frame)) (view : View)
    → IsTable kept view.agg
    → IsGoing (if resets round.event then [] else kept) (on_draw round drawn view)
unfolding on_draw
on_draw-IsGoing round (ok _) kept view h = on_event-IsGoing round.now round.event kept _ h
on_draw-IsGoing round (err e) kept view h = unfold IsGoing in tt
on_draw-IsGoing round panic kept view h = unfold IsGoing in tt

IsGoing-if :
    (b : Bool) (kept : List (ℕ × List Frame)) (x y : Loop)
    → IsGoing kept x
    → IsGoing kept y
    → IsGoing kept (if b then x else y)
IsGoing-if true kept x y hx hy = hx
IsGoing-if false kept x y hx hy = hy

pub draw_if_due-IsGoing :
    (tick : ℕ) (round : Round) (kept : List (ℕ × List Frame)) (view : View)
    → IsTable kept view.agg
    → IsGoing (if resets round.event then [] else kept) (draw_if_due tick round view)
unfolding draw_if_due
draw_if_due-IsGoing tick round kept view h =
    IsGoing-if (leb tick (round.now - view.last_draw)) _ _ _
      (on_draw-IsGoing round round.drawn _ _ h) (on_event-IsGoing round.now round.event _ _ h)

-- A sample more.
pub IsTable-append :
    (kept received : List (ℕ × List Frame)) (agg : Aggregator)
    → IsTable kept agg
    → IsTable (kept ++ received) (drain received agg)
IsTable-append kept received agg h = record {
  base = h.base;
  cleared = h.cleared;
  table = ap (λ a. drain received a) h.table ∙ drain-record_all kept received h.base;
}

one_round-IsGoing :
    (tick : ℕ) (round : Round) (kept : List (ℕ × List Frame)) (view : View)
    → IsTable kept view.agg
    → IsGoing
        (if resets round.event then [] else kept ++ round.received)
        (one_round tick round view)
unfolding one_round
one_round-IsGoing tick round kept view h = IsGoing-if round.stop _ _ _ (unfold IsGoing in tt) (
    IsGoing-if round.disconnected _ _ _ (unfold IsGoing in tt) (
      draw_if_due-IsGoing tick round (kept ++ round.received)
        (record view { agg = drain round.received view.agg })
        (IsTable-append kept round.received view.agg h)))

run_loop-IsGoing :
    (tick : ℕ) (rounds : List Round) (kept : List (ℕ × List Frame)) (view : View)
    → IsTable kept view.agg
    → IsGoing (since_reset kept rounds) (run_loop tick rounds view)
unfolding run_loop since_reset
run_loop-IsGoing tick [] kept view h = unfold IsGoing in h
run_loop-IsGoing tick (round ∷ rounds) kept view h =
    going (one_round tick round view) (one_round-IsGoing tick round kept view h)
      (λ v t. run_loop-IsGoing tick rounds _ v t)
  where
    going :
        (l : Loop)
        → IsGoing (if resets round.event then [] else kept ++ round.received) l
        → ((v : View)
            → IsTable (if resets round.event then [] else kept ++ round.received) v.agg
            → IsGoing
                (since_reset (if resets round.event then [] else kept ++ round.received) rounds)
                (run_loop tick rounds v))
        → IsGoing
            (since_reset (if resets round.event then [] else kept ++ round.received) rounds)
            (go_on (run_loop tick rounds) l)
    going (goes v) t rest = unfold go_on in rest v (unfold IsGoing in t)
    going (returns result v) t rest = unfold go_on IsGoing in tt

pub table-counts :
    (k : Text) (samples : List (ℕ × List Frame)) (agg : Aggregator)
    → IsTable samples agg
    → ((row k agg.rows).exclusive % 2 ^ 64 ≡ count_if (ends_in k) (stacks_of samples) % 2 ^ 64)
      × ((row k agg.rows).inclusive % 2 ^ 64 ≡ count_if (shows k) (stacks_of samples) % 2 ^ 64)
table-counts k samples agg t =
    let (ex, inc) = rows-record_all k samples t.base in
    let none_yet : row k t.base.rows ≡ default_counts =
      unfold lookup in ap (λ m. row k m) t.cleared in
    (
      ap (λ a. (row k a.rows).exclusive % 2 ^ 64) t.table
          ∙ (ex ∙ omega (arith, ap (λ c. c.exclusive) none_yet)),
      ap (λ a. (row k a.rows).inclusive % 2 ^ 64) t.table
          ∙ (inc ∙ omega (arith, ap (λ c. c.inclusive) none_yet)),
    )

-- As long as the loop goes on, the counts that the table shows for a function are those of the
-- samples received since the key `r` was last pressed, or since the start: on 64-bit counters, the
-- samples that end in it, and those that show it.
pub run_loop_lem :
    (tick now : ℕ) (rounds : List Round) (view : View) (k : Text)
    → run_loop tick rounds (first_view tick now) ≡ goes view
    → ((row k view.agg.rows).exclusive % 2 ^ 64
        ≡ count_if (ends_in k) (stacks_of (since_reset [] rounds)) % 2 ^ 64)
      × ((row k view.agg.rows).inclusive % 2 ^ 64
          ≡ count_if (shows k) (stacks_of (since_reset [] rounds)) % 2 ^ 64)
unfolding first_view IsGoing
run_loop_lem tick now rounds view k e =
    let table : IsTable (since_reset [] rounds) view.agg =
      subst (λ l. IsGoing (since_reset [] rounds) l) e
        (run_loop-IsGoing tick rounds [] (first_view tick now)
          (record { base = new; cleared = refl; table = unfold record_all in refl })) in
    table-counts k (since_reset [] rounds) view.agg table
