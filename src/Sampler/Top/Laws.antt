-- ===== src/Sampler/Top/Laws.antt =====
-- What the live table of `run_top` counts.
use php_fast_profile.Base.{
  ℕ, ◌%◌, ◌^◌, List, [], ◌++◌, All, Option, none, some, Bool, true, false, ◌||◌, ◌≡◌, refl,
  if◌then◌else◌,
}
use php_fast_profile.Base.Act.{Outcome, ok, err, panic, pure, continue}
use php_fast_profile.Base.Text.{Text}
use php_fast_profile.Zend.Frame.{Frame}
use php_fast_profile.Zend.Walker.{Walker}
use php_fast_profile.Tui.{new}
use php_fast_profile.Tui.Laws.{record_all, row, count_if, ends_in, shows, stacks_of}
use php_fast_profile.Tui.Loop.{first_view}
use php_fast_profile.Tui.Loop.Laws.{IsTable, draw_if_due-IsGoing, table-counts}
use php_fast_profile.Sampler.Leaf.{leaf_is_any}
use php_fast_profile.Sampler.Run.{is_empty}
use php_fast_profile.Sampler.Worker.{Worker, sample_top, turn_of, thread_round}
use php_fast_profile.Sampler.Top.{
  TopSystem, TopSetup, Deed, TopStep, TopReach, is_connected, sent_frames, check, round_of,
  start_top, top_turn, after_turn,
}
use php_fast_profile.Sampler.Top.Deeds.{
  sent_by, shown_by, kept_by, IsWanted, IsShown, Changes, IsShown-Changes, Changes-silent,
  Changes-turn, Changes-recv, Changes-poll,
}

module _ (setup : TopSetup) where
  -- What a sampler sends is wanted.
  IsWantedResult : Outcome (Option (List Frame)) → Type 0
  IsWantedResult (ok none) = Unit
  IsWantedResult (ok (some frames)) = IsWanted setup.drop_leaf frames
  IsWantedResult (err e) = Unit
  IsWantedResult panic = Unit

  wanted_if :
      (b : Bool) (frames : List Frame)
      → (is_empty frames || leaf_is_any frames setup.drop_leaf) ≡ b
      → IsWantedResult (ok (if b then none else some frames))
  unfolding IsWantedResult
  wanted_if true frames e = tt
  wanted_if false frames e = e

  wanted_result :
      (r : Outcome (List Frame)) (w : Walker)
      → IsWantedResult
          (continue r
            (λ frames.
              pure (
                if is_empty frames || leaf_is_any frames setup.drop_leaf
                then none
                else some frames))
            w).0
  unfolding IsWantedResult
  wanted_result (err e) w = tt
  wanted_result panic w = tt
  wanted_result (ok frames) w =
      wanted_if (is_empty frames || leaf_is_any frames setup.drop_leaf) frames refl

  turn_of-IsWanted :
      (alive connected : Bool) (r : Outcome (Option (List Frame)))
      → IsWantedResult r
      → All (IsWanted setup.drop_leaf) (sent_frames (turn_of alive connected r))
  unfolding turn_of IsWantedResult
  turn_of-IsWanted alive connected (ok none) h = tt
  turn_of-IsWanted alive true (ok (some frames)) h = (h, tt)
  turn_of-IsWanted alive false (ok (some frames)) h = tt
  turn_of-IsWanted true connected (err e) h = tt
  turn_of-IsWanted false connected (err e) h = tt
  turn_of-IsWanted alive connected panic h = tt

  top_turn-IsWanted :
      (pid : ℕ) (stop alive connected : Bool) (w : Worker)
      → All (IsWanted setup.drop_leaf) (sent_frames (top_turn setup pid stop alive connected w).0)
  unfolding top_turn thread_round sample_top
  top_turn-IsWanted pid true alive connected w = tt
  top_turn-IsWanted pid false alive connected w =
      turn_of-IsWanted alive connected _ (wanted_result _ _)

  step-Changes :
      (s : TopSystem) (kept : List (ℕ × List Frame)) (d : Deed) (t : TopSystem)
      → TopStep setup s d t
      → IsTable kept s.view.agg
      → Changes setup.drop_leaf kept d s t
  unfolding check after_turn
  step-Changes s kept d t (TopStep.attach pid w e) h = Changes-silent _ kept s t refl refl h
  step-Changes s kept d t (TopStep.work pid w stop alive e f) h =
      Changes-turn _ kept (top_turn setup pid stop alive (is_connected s.phase) w).0 s t refl refl
        (top_turn-IsWanted pid stop alive (is_connected s.phase) w) h
  step-Changes s kept d t TopStep.signal h = Changes-silent _ kept s t refl refl h
  step-Changes s kept d t (TopStep.timer n e) h = Changes-silent _ kept s t refl refl h
  step-Changes s kept d t (TopStep.check_stop p) h = Changes-silent _ kept s t refl refl h
  step-Changes s kept d t (TopStep.recv now p) h = Changes-recv _ kept now s.channel s refl h
  step-Changes s kept d t (TopStep.poll now drawn event p) h =
      Changes-poll _ kept event _ s
        (draw_if_due-IsGoing setup.tick (round_of now drawn event) kept s.view h) h

  start-IsShown :
      (now : ℕ) (pids : List ℕ) → IsShown setup.drop_leaf [] (start_top setup.tick now pids)
  unfolding start_top first_view sent_by shown_by kept_by stacks_of
  start-IsShown now pids = record {
    queue = refl;
    table = record { base = new; cleared = refl; table = unfold record_all in refl };
    wanted = tt;
  }

  reached :
      (now : ℕ) (pids : List ℕ) (deeds : List Deed) (s : TopSystem)
      → TopReach setup (start_top setup.tick now pids) deeds s
      → IsShown setup.drop_leaf deeds s
  reached now pids deeds s TopReach.start = start-IsShown now pids
  reached now pids deeds t (TopReach.later {s = s} {deeds = before} {deed = d} r step) =
      let h = reached now pids before s r in
      IsShown-Changes _ before d s t h (step-Changes s _ d t step h.table)

-- What the table of `run_top` counts.
pub record IsTopTable (setup : TopSetup) (deeds : List Deed) (s : TopSystem) (k : Text)
    : Type 0 where
  pub queue : sent_by deeds ≡ stacks_of (shown_by deeds) ++ s.channel
  pub wanted : All (IsWanted setup.drop_leaf) (sent_by deeds)
  pub exclusive :
      (row k s.view.agg.rows).exclusive % 2 ^ 64
      ≡ count_if (ends_in k) (stacks_of (kept_by [] deeds)) % 2 ^ 64
  pub inclusive :
      (row k s.view.agg.rows).inclusive % 2 ^ 64
      ≡ count_if (shows k) (stacks_of (kept_by [] deeds)) % 2 ^ 64

-- At every moment of a run of `run_top`, and however its samplers, its timer, the signals and the
-- live table interleave, the samples sent so far are those that the table has recorded, in their
-- order, and then those in the channel; none is empty or ends in a function to drop. The table's
-- counts for a function are, on 64-bit counters, those of the samples recorded since the key `r`
-- last cleared it, or since the start: the samples that end in the function, and those that show it.
pub TopReach-IsTopTable :
    (setup : TopSetup) (now : ℕ) (pids : List ℕ) (deeds : List Deed) (s : TopSystem) (k : Text)
    → TopReach setup (start_top setup.tick now pids) deeds s
    → IsTopTable setup deeds s k
TopReach-IsTopTable setup now pids deeds s k r =
    let h = reached setup now pids deeds s r in
    let (ex, inc) = table-counts k (kept_by [] deeds) s.view.agg h.table in
    record { queue = h.queue; wanted = h.wanted; exclusive = ex; inclusive = inc }
