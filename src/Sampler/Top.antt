-- ===== src/Sampler/Top.antt =====
-- src/sampler.rs, `run_top`: a sampler's thread for each process, the timer's thread, and the live
-- table of src/tui.rs on the main thread.
--
-- The steps of the threads follow each other in any order. The flag `stop` is shared; a round of a
-- sampler that began before it was set sees it unset. The receiver of the channel is there until
-- the table's loop returns, and a sender for each thread that has not ended. What a thread's attach
-- gives, the clock, the terminal and its events are arguments of the steps that look at them.
pub mod Deeds
pub mod Laws
use php_fast_profile.Base.{
  ℕ, List, [], ◌∷◌, ◌++◌, Option, none, some, All, Bool, true, false, not, ◌≡◌, nat_eq,
  if◌then◌else◌,
}
use php_fast_profile.Base.Act.{Outcome, ok, bind}
use php_fast_profile.Base.Map.{HashMap, lookup, insert}
use php_fast_profile.Base.Text.{Text}
use php_fast_profile.Zend.Frame.{Frame}
use php_fast_profile.Arguments.{Args}
use php_fast_profile.Discover.{ProcessFilter}
use php_fast_profile.Cli.{top_pids}
use php_fast_profile.Tui.{record_stack}
use php_fast_profile.Tui.Loop.{Round, View, Loop, goes, returns, Event, draw_if_due, first_view}
use php_fast_profile.Tui.Loop.Laws.{resets}
use php_fast_profile.Sampler.Run.{Settings}
use php_fast_profile.Sampler.Worker.{Worker, Turn, ended, quiet, sends, sample_top, thread_round}

-- A thread before its attach, in its loop, and behind its end.
pub data TopThread : Type 0 where
  starting : TopThread
  running : Worker → TopThread
  gone : TopThread

-- Where the main thread is in the loop of the table: at the stop flag, at `try_recv`, at the draw and
-- the poll, or behind its return.
pub data TopPhase : Type 0 where
  checking receiving polling : TopPhase
  returned : Outcome (Unit {0}) → TopPhase

pub record TopSystem : Type 0 where
  pub threads : HashMap ℕ TopThread
  pub channel : List (List Frame)
  pub stop : Bool
  pub view : View
  pub phase : TopPhase

pub record TopSetup : Type 0 where
  pub max_depth : ℕ
  pub drop_leaf : List Text
  pub delay : ℕ → ℕ → ℕ
  pub interval : ℕ
  pub duration : Option ℕ
  pub tick : ℕ

-- What a step does to the samples: it sends one, records one at a time, or clears the table.
pub data Deed : Type 0 where
  silent cleared : Deed
  sent : List Frame → Deed
  shown : ℕ → List Frame → Deed

abbrev pub is_connected : TopPhase → Bool
is_connected (returned r) = false
is_connected phase = true

-- What a round of a thread may see of the stop flag.
pub data IsLoad : Bool → Bool → Type 0 where
  unset : {b : Bool} → IsLoad false b
  set : IsLoad true true

abbrev pub deed_of : Turn (List Frame) → Deed
deed_of ended = silent
deed_of quiet = silent
deed_of (sends frames) = sent frames

abbrev pub sent_frames : Turn (List Frame) → List (List Frame)
sent_frames ended = []
sent_frames quiet = []
sent_frames (sends frames) = frames ∷ []

abbrev pub attached : Option Worker → TopThread
attached none = gone
attached (some w) = running w

abbrev pub after_round : Worker → TopThread
after_round w = if w.finished then gone else running w

-- All senders are dropped.
unfoldable pub all_gone : HashMap ℕ TopThread → Bool
all_gone [] = true
all_gone ((pid, gone) ∷ threads) = all_gone threads
all_gone ((pid, starting) ∷ threads) = false
all_gone ((pid, running w) ∷ threads) = false

unfoldable pub check : TopSystem → TopSystem
check s = record s { phase = if s.stop then TopPhase.returned (ok tt) else TopPhase.receiving }

-- `rx.try_recv()`, with the time at which a sample is recorded.
unfoldable pub try_recv : ℕ → List (List Frame) → TopSystem → TopSystem
try_recv now [] s = record s {
  phase = if all_gone s.threads then TopPhase.returned (ok tt) else TopPhase.polling;
}
try_recv now (frames ∷ rest) s = record s {
  channel = rest;
  view = record s.view { agg = record_stack now frames s.view.agg };
}

abbrev pub recv_deed : ℕ → List (List Frame) → Deed
recv_deed now [] = silent
recv_deed now (frames ∷ rest) = shown now frames

-- The loop's last view is of no use to anyone.
unfoldable pub after_poll : Loop → TopSystem → TopSystem
after_poll (goes view) s = record s { view = view; phase = TopPhase.checking }
after_poll (returns r view) s = record s { phase = TopPhase.returned r }

abbrev pub poll_deed : Outcome (Option Event) → Loop → Deed
poll_deed event (goes view) = if resets event then cleared else silent
poll_deed event (returns r view) = silent

-- What the draw and the poll meet.
abbrev pub round_of : ℕ → Outcome (Unit {0}) → Outcome (Option Event) → Round
round_of now drawn event = record {
  stop = false;
  received = [];
  disconnected = false;
  now = now;
  drawn = drawn;
  event = event;
}

unfoldable pub start_threads : List ℕ → HashMap ℕ TopThread
start_threads [] = []
start_threads (pid ∷ pids) = insert pid starting (start_threads pids)

unfoldable pub start_top : ℕ → ℕ → List ℕ → TopSystem
start_top tick now pids = record {
  threads = start_threads pids;
  channel = [];
  stop = false;
  view = first_view tick now;
  phase = TopPhase.checking;
}

-- `run_top` up to the start of its threads and of the table.
unfoldable pub run_top :
    Args → Option Text → (ProcessFilter → Outcome (List ℕ)) → (tick now : ℕ) → Outcome TopSystem
run_top args cg discovered tick now =
    bind (top_pids args cg discovered) λ pids. ok (start_top tick now pids)

module _ (setup : TopSetup) where
  abbrev pub settings_of : Worker → Settings
  settings_of w = record {
    target = w.target;
    capture_request_info = false;
    max_depth = setup.max_depth;
    drop_leaf = setup.drop_leaf;
  }

  -- A round of the sampler of `pid`.
  unfoldable pub top_turn :
      (pid : ℕ) → (stop alive connected : Bool) → Worker → Turn (List Frame) × Worker
  top_turn pid stop alive connected w =
      thread_round (setup.delay pid) setup.interval (sample_top (settings_of w)) stop alive
        connected w

  unfoldable pub after_turn : ℕ → Turn (List Frame) × Worker → TopSystem → TopSystem
  after_turn pid (turn, w) s = record s {
    threads = insert pid (after_round w) s.threads;
    channel = s.channel ++ sent_frames turn;
  }

  pub data TopStep (s : TopSystem) : Deed → TopSystem → Type 0 where
    attach :
        (pid : ℕ) (new : Option Worker)
        → lookup pid s.threads ≡ some starting
        → TopStep s silent (record s { threads = insert pid (attached new) s.threads })
    work :
        (pid : ℕ) (w : Worker) (stop alive : Bool)
        → lookup pid s.threads ≡ some (running w)
        → IsLoad stop s.stop
        → TopStep s
            (deed_of (top_turn pid stop alive (is_connected s.phase) w).0)
            (after_turn pid (top_turn pid stop alive (is_connected s.phase) w) s)
    signal : TopStep s silent (record s { stop = true })
    timer : (d : ℕ) → setup.duration ≡ some d → TopStep s silent (record s { stop = true })
    check_stop : s.phase ≡ TopPhase.checking → TopStep s silent (check s)
    recv :
        (now : ℕ)
        → s.phase ≡ TopPhase.receiving
        → TopStep s (recv_deed now s.channel) (try_recv now s.channel s)
    poll :
        (now : ℕ) (drawn : Outcome (Unit {0})) (event : Outcome (Option Event))
        → s.phase ≡ TopPhase.polling
        → TopStep s
            (poll_deed event (draw_if_due setup.tick (round_of now drawn event) s.view))
            (after_poll (draw_if_due setup.tick (round_of now drawn event) s.view) s)

  -- The states that a run reaches, with its deeds on the way, oldest first.
  pub data TopReach (s₀ : TopSystem) : List Deed → TopSystem → Type 0 where
    start : TopReach s₀ [] s₀
    later :
        {s t : TopSystem} {deeds : List Deed} {deed : Deed}
        → TopReach s₀ deeds s
        → TopStep s deed t
        → TopReach s₀ (deeds ++ (deed ∷ [])) t
