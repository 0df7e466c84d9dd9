-- ===== src/Cli/Process.antt =====
-- src/cli.rs, `run`, where a process is given: the sampler is attached and run.
--
-- What is around the program are parameters: the machine, what the sinks stand on, whether a file
-- can be created, and the world of the run.
pub mod Started
pub mod Laws
use php_fast_profile.Base.{
  ℕ, ◌+◌, ◌*◌, ◌≤◌, ◌<◌, max, Option, some, Bool, ◌≡◌, ◌≢◌, refl, ap, ◌∙◌, arith,
}
use php_fast_profile.Base.Act.{Outcome, ok, err, panic, bind}
use php_fast_profile.Base.Text.{Text}
use php_fast_profile.Arguments.{Args, top}
use php_fast_profile.Output.Build.{AnySink, Outside, any_sink, finish_any, build_sink}
use php_fast_profile.Output.Build.Laws.{IsReady, any_sink-HasNoPanic, build_sink-IsReady}
use php_fast_profile.Output.Pyroscope.Laws.{HasNoPanic}
use php_fast_profile.Output.Sink.{Sink}
use php_fast_profile.Target.Attach.{Machine, attach}
use php_fast_profile.Target.Attach.Laws.{IsAttached, attach_lem}
use php_fast_profile.Target.Capture.{Target}
use php_fast_profile.Sampler.Pace.{Pace, look}
use php_fast_profile.Sampler.Start.{attach_options, attach_sampler}
use php_fast_profile.Sampler.Run
use php_fast_profile.Sampler.Run.{Settings, World, Sampler, Running}
use php_fast_profile.Sampler.Run.Rounds.{IsOnTime}
use php_fast_profile.Sampler.Run.Laws.{IsRun, panicked, finished, run_lem}
use php_fast_profile.Sampler.Run.Safety.{run-ne-panic}
use php_fast_profile.Cli.{Command, run_single, interval, duration, run}
use php_fast_profile.Cli.Laws.{IsSingleRun, run_single_lem, enough}

-- `Sampler::attach(pid, &args)?`, then `sampler.run(interval, duration)`.
unfoldable pub run_process :
    Machine
    → Outside
    → (Text → Bool)
    → World
    → ℕ
    → Pace
    → Args
    → (pid k : ℕ) → Outcome (Outcome (Unit {0}) × Running AnySink)
run_process m outside create world fuel p args pid k =
    bind (attach_sampler m outside create args pid k) λ attached. ok (
      Run.run (any_sink outside) attached.0 world fuel (interval args) (duration args) p attached.1)
