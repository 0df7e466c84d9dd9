-- ===== src/Sampler/Start.antt =====
-- src/sampler.rs, `Sampler::attach` and the `spawn_worker` of `run_multi`: what a sampler starts with.
--
-- The machine is that of Target/Attach.antt; `k` counts the reads of the target's memory before.
-- The system is taken to give every thread that is asked for.
use php_fast_profile.Base.{ℕ, Option, none, some, Bool, false}
use php_fast_profile.Base.Act.{Outcome, ok, err, panic, bind}
use php_fast_profile.Base.Text.{Text}
use php_fast_profile.Zend.Walker.{new_walker}
use php_fast_profile.Target.Capture.{Target}
use php_fast_profile.Target.Attach.{Machine, AttachOptions, attach}
use php_fast_profile.Arguments.{Args}
use php_fast_profile.Output.Build.{AnySink, Outside, build_sink}
use php_fast_profile.Sampler.Pace.{Pace, look}
use php_fast_profile.Sampler.Run.{Settings, Sampler}
use php_fast_profile.Sampler.Worker.{Worker}

unfoldable pub attach_options : Args → AttachOptions
attach_options args = record {
  executor_globals = args.executor_globals;
  php_version_addr = none;
  php_version_string = args.php_version;
}

unfoldable pub attach_sampler :
    Machine → Outside → (Text → Bool) → Args → (pid k : ℕ) → Outcome (Settings × Sampler AnySink)
attach_sampler m outside create args pid k = bind (attach m pid (attach_options args) k).0 λ t.
    bind (build_sink outside create args) λ sink. ok (
      record {
        target = t;
        capture_request_info = args.request_info;
        max_depth = args.max_depth;
        drop_leaf = args.drop_leaf;
      },
      record { walker = new_walker; sink = sink },
    )

-- The thread's first look at its clock gives the time of its first sample.
unfoldable pub new_worker : (delay : ℕ → ℕ) → Pace → Target → Worker
new_worker delay p t =
    let q = look delay p in
    record { target = t; walker = new_walker; pace = record q { next = q.time }; finished = false }

unfoldable pub worker_of : (delay : ℕ → ℕ) → Pace → Outcome Target → Outcome (Option Worker)
worker_of delay p (ok t) = ok (some (new_worker delay p t))
worker_of delay p (err e) = ok none
worker_of delay p panic = panic

-- A process that cannot be attached to gets no worker.
unfoldable pub spawn_worker :
    Machine → (delay : ℕ → ℕ) → Pace → Args → (pid k : ℕ) → Outcome (Option Worker)
spawn_worker m delay p args pid k = worker_of delay p (attach m pid (attach_options args) k).0
