-- ===== src/Cli/Process/Laws.antt =====
-- A run for one process, from the arguments to the end.
use php_fast_profile.Base.{ℕ, ◌+◌, ◌*◌, ◌≤◌, ◌<◌, max, Option, some, Bool, ◌≡◌, ◌≢◌}
use php_fast_profile.Base.Act.{Outcome, ok, panic}
use php_fast_profile.Base.Text.{Text}
use php_fast_profile.Arguments.{Args, top}
use php_fast_profile.Output.Build.{AnySink, Outside, any_sink, finish_any}
use php_fast_profile.Output.Pyroscope.Laws.{HasNoPanic}
use php_fast_profile.Target.Attach.{Machine}
use php_fast_profile.Sampler.Pace.{Pace, look}
use php_fast_profile.Sampler.Run
use php_fast_profile.Sampler.Run.{Settings, World, Sampler, Running}
use php_fast_profile.Sampler.Run.Rounds.{IsOnTime}
use php_fast_profile.Cli.{run_single, interval, duration, run}
use php_fast_profile.Cli.Laws.{enough}
use php_fast_profile.Cli.Process.Started.{IsStarted}

-- A run that ended by the finish of its sink: `last` is the state it ended in, but for the sink as
-- it was before the finish, so its pace and counts are those of the run.
pub record IsEnded (outside : Outside) (interval start : ℕ)
    (r : Outcome (Unit {0}) × Running AnySink) : Type 0 where
  pub last : Running AnySink
  pub on_time : IsOnTime interval start last
  pub answer : r.0 ≡ (finish_any outside last.sampler.sink).0
  pub ends : r.1 ≡ record last {
    sampler = record last.sampler { sink = (finish_any outside last.sampler.sink).1 };
  }

-- What a run for one process comes to.
pub record IsProfiled (m : Machine) (outside : Outside) (create : Text → Bool) (world : World)
    (args : Args) (cg : Option Text) (p : Pace) (pid : ℕ) (r : Outcome (Unit {0}) × Running AnySink)
    : Type 0 where
  pub command : run args cg ≡ ok (run_single pid (interval args) (duration args))
  pub rate :
      (interval args * max args.rate_hz 1 ≤ 1_000_000_000)
      × (1_000_000_000 < (interval args + 1) * max args.rate_hz 1)
  pub settings : Settings
  pub sampler : Sampler AnySink
  pub started : IsStarted m outside create args pid settings sampler
  pub ran :
      r
      ≡ Run.run
          (any_sink outside)
          settings
          world
          (enough (args.duration_secs * 1_000_000_000) (interval args))
          (interval args)
          (duration args)
          p
          sampler
  pub calm : r.0 ≢ panic
  pub ended : IsEnded outside (interval args) (look world.delay p).time r

module _ (m : Machine) (outside : Outside) (create : Text → Bool) (world : World) (args : Args)
    (cg : Option Text) (p : Pace) (pid k : ℕ) (calm : HasNoPanic outside.service)
    (single : args.pid ≡ some pid) (dumps : args.format ≢ top) (timed : args.duration_secs ≢ 0)
    (slow : args.rate_hz ≤ 1_000_000_000) where
  fuel : ℕ
  fuel = enough (args.duration_secs * 1_000_000_000) (interval args)
