-- ===== src/Sampler/Multi/Threads.antt =====
-- The steps of `run_multi`: the main thread's, and its workers' between them.
pub mod Calm
pub mod Fed
pub mod Queue
pub mod Workers
use php_fast_profile.Base.{
  ℕ, List, [], ◌∷◌, ◌++◌, Option, none, some, All, Bool, true, false, ◌≡◌, ◌≢◌, nat_eq,
}
use php_fast_profile.Base.Act.{Outcome, panic}
use php_fast_profile.Base.Map.{lookup, insert}
use php_fast_profile.Base.Text.{Text}
use php_fast_profile.Output.Sink.{Sink}
use php_fast_profile.Sampler.Run.{Settings}
use php_fast_profile.Sampler.Worker.{
  Worker, SampleMsg, Turn, ended, quiet, sends, sample_msg, thread_round,
}
use php_fast_profile.Sampler.Multi.{
  System, Phase, main_receive, main_timers, drain, finish_multi, start_multi,
}

abbrev pub sent : Turn SampleMsg → List SampleMsg
sent ended = []
sent quiet = []
sent (sends msg) = msg ∷ []

-- The flag of the workers is set in the teardown. A round that began before sees it unset.
pub data IsFlag : Bool → Phase → Type 0 where
  unset : {p : Phase} → IsFlag false p
  on_drain : IsFlag true Phase.draining
  on_join : IsFlag true Phase.joining

abbrev pub IsFinished : ℕ × Worker → Type 0
IsFinished (pid, w) = w.finished ≡ true

-- What all runs of the workers share: the arguments, and the clock of each thread.
pub record Setup (S : Type 0) : Type 0 where
  pub sink : Sink S
  pub capture_request_info : Bool
  pub max_depth : ℕ
  pub drop_leaf : List Text
  pub delay : ℕ → ℕ → ℕ
  pub interval : ℕ

module _ {S : Type 0} (setup : Setup S) where
  abbrev pub settings_of : Worker → Settings
  settings_of w = record {
    target = w.target;
    capture_request_info = setup.capture_request_info;
    max_depth = setup.max_depth;
    drop_leaf = setup.drop_leaf;
  }

  -- A round of the worker `w` of `pid`.
  unfoldable pub worker_turn : (pid : ℕ) → (stop alive : Bool) → Worker → Turn SampleMsg × Worker
  worker_turn pid stop alive w =
      thread_round (setup.delay pid) setup.interval (sample_msg (settings_of w) pid) stop alive true
        w

  unfoldable pub after_turn : ℕ → Turn SampleMsg × Worker → System S → System S
  after_turn pid (turn, w) s = record s {
    workers = insert pid w s.workers;
    channel = s.channel ++ sent turn;
  }

  -- A step, with the messages that it sends. Discovery may fail, but does not panic.
  pub data Step (s : System S) : List SampleMsg → System S → Type 0 where
    work :
        (pid : ℕ) (w : Worker) (stop alive : Bool)
        → lookup pid s.workers ≡ some w
        → w.finished ≡ false
        → IsFlag stop s.phase
        → Step s
            (sent (worker_turn pid stop alive w).0)
            (after_turn pid (worker_turn pid stop alive w) s)
    receive :
        (stop over : Bool)
        → s.phase ≡ Phase.receiving
        → Step s [] (main_receive setup.sink stop over s)
    timers :
        (spawn : ℕ → Option Worker) (due : Bool) (found : Outcome (List ℕ))
        → found ≢ panic
        → s.phase ≡ Phase.timing
        → Step s [] (main_timers spawn due found s)
    drain_one : s.phase ≡ Phase.draining → Step s [] (drain setup.sink s.channel s)
    finish :
        s.phase ≡ Phase.joining → All IsFinished s.workers → Step s [] (finish_multi setup.sink s)

  -- The states that a run reaches, with the messages sent on the way, oldest first.
  pub data Reach (s₀ : System S) : List SampleMsg → System S → Type 0 where
    start : Reach s₀ [] s₀
    later :
        {s t : System S} {log new : List SampleMsg}
        → Reach s₀ log s
        → Step s new t
        → Reach s₀ (log ++ new) t
