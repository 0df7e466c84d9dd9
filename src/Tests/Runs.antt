-- ===== src/Tests/Runs.antt =====
-- Runs of the sampler and its threads, at concrete inputs.
use php_fast_profile.Base.{
  length, ◌≢◌, ◌≤◌, ◌+◌, ℕ, ◌++◌, List, [], ◌∷◌, Option, none, some, true, false, ◌≡◌, refl, arith,
  ◌==◌, if◌then◌else◌, nat_eq,
}
use php_fast_profile.Base.Act.{ok, panic}
use php_fast_profile.Base.Map.{lookup, insert, IsMap}
use php_fast_profile.Base.Text.{codes}
use php_fast_profile.Zend.Frame.{Frame}
use php_fast_profile.Zend.Walker.{new_walker, cache_limit}
use php_fast_profile.Output.Sink.{Sink, SinkHasNoPanic}
use php_fast_profile.Sampler.Pace.{Pace, look}
use php_fast_profile.Sampler.Run
use php_fast_profile.Sampler.Run.{Settings, World, Sampler, sample_meta}
use php_fast_profile.Sampler.Run.Safety.{run-ne-panic}
use php_fast_profile.Offsets.Laws.{IsInBuffer}
use php_fast_profile.Target.Capture.{request_var}
use php_fast_profile.Target.Capture.Request.{request_calls, request_var_bounds}
use php_fast_profile.Sampler.Run.Laws.{IsRun, run_lem}
use php_fast_profile.Sampler.Worker.{Worker, SampleMsg, Turn}
use php_fast_profile.Sampler.Multi.{System, Phase, rediscover, start_multi, spawn_all, main_receive}
use php_fast_profile.Sampler.Multi.Threads
use php_fast_profile.Sampler.Multi.Threads.{
  Setup, Reach, start, later, Step, worker_turn, sent, after_turn,
}
use php_fast_profile.Sampler.Multi.Threads.Queue.{IsDelivered, Reach-IsDelivered}
use php_fast_profile.Sampler.Multi.Threads.Workers.{
  live, or_new, is_found, lookup-rediscover, Reach-IsMap,
}
use php_fast_profile.Tests.Memory.{target}

abbrev settings : Settings
settings = record {
  target = target;
  capture_request_info = false;
  max_depth = 5;
  drop_leaf = codes "g" ∷ [];
}

abbrev pub world : World
world = record { delay = λ n. 10; stop = λ n. false; exists = λ n. true }

-- A sink that keeps what it is given.
abbrev kept_sink : Sink (List (List Frame))
kept_sink = record {
  write_sample = λ frames meta k. (ok tt, k ++ (frames ∷ []));
  finish = λ k. (ok tt, k);
}

abbrev pub pace_0 : Pace
pace_0 = record { time = 0; looks = 0; next = 0 }

run_lem_example : IsRun kept_sink 100 (look (λ n. 10) pace_0).time (
    Run.run kept_sink settings world 12 100
      (some 1000)
      pace_0
      (record { walker = new_walker; sink = [] }))
run_lem_example =
    run_lem kept_sink settings world 12 100 1000 pace_0 (record { walker = new_walker; sink = [] })
      (omega arith) (omega arith)

abbrev setup : Setup (List (List Frame))
setup = record {
  sink = kept_sink;
  capture_request_info = false;
  max_depth = 5;
  drop_leaf = [];
  delay = λ pid n. 10;
  interval = 100;
}

abbrev pub worker : Worker
worker = record { target = target; walker = new_walker; pace = pace_0; finished = false }

abbrev spawn : ℕ → Option Worker
spawn pid = if pid == 1 then some worker else none

abbrev first_turn : Turn SampleMsg × Worker
first_turn = worker_turn setup 1 false true worker

abbrev system_0 : System (List (List Frame))
system_0 = start_multi [] spawn (ok (1 ∷ 2 ∷ []))

abbrev system_1 : System (List (List Frame))
system_1 = after_turn setup 1 first_turn system_0

found_worker : lookup 1 system_0.workers ≡ some worker
unfolding start_multi spawn_all lookup insert
found_worker = refl

first_step : Reach setup system_0 ([] ++ sent first_turn.0) system_1
first_step = later start (Step.work 1 worker false true found_worker refl Threads.IsFlag.unset)

-- The main thread takes the message from the channel.
abbrev system_2 : System (List (List Frame))
system_2 = main_receive kept_sink false false system_1

abbrev sent_2 : List SampleMsg
sent_2 = ([] ++ sent first_turn.0) ++ []

is_receiving : system_1.phase ≡ Phase.receiving
unfolding start_multi after_turn
is_receiving = refl

second_step : Reach setup system_0 sent_2 system_2
second_step = later first_step (Step.receive false false is_receiving)

Reach-IsDelivered_example : IsDelivered setup [] sent_2 system_2
Reach-IsDelivered_example =
    Reach-IsDelivered setup [] spawn (1 ∷ 2 ∷ []) sent_2 system_2 second_step

workers-IsMap : IsMap system_1.workers
workers-IsMap =
    Reach-IsMap setup [] spawn (ok (1 ∷ 2 ∷ [])) ([] ++ sent first_turn.0) system_1 first_step

lookup-rediscover_example :
    lookup 2 (rediscover spawn (ok (2 ∷ [])) system_1).workers
    ≡ or_new (live (lookup 2 system_1.workers)) (if is_found 2 (2 ∷ []) then spawn 2 else none)
lookup-rediscover_example = lookup-rediscover spawn (2 ∷ []) 2 system_1 workers-IsMap

kept_sink-HasNoPanic : SinkHasNoPanic kept_sink (λ k. Unit {0})
kept_sink-HasNoPanic = record { write = λ frames meta k h. ((λ e. cc), tt); finish = λ k h e. cc }

-- The run sees the flag, and leaves its loop.
abbrev leaving : System (List (List Frame))
leaving = main_receive kept_sink true false system_1

layout-IsInBuffer : IsInBuffer settings.target.layout
layout-IsInBuffer = record { filename = omega arith; line_start = omega arith }

run-ne-panic_example :
    (Run.run kept_sink settings world 12 100
      (some 1000)
      pace_0
      (record { walker = new_walker; sink = [] })).0
    ≢ panic
run-ne-panic_example =
    run-ne-panic kept_sink settings world 12 100 (some 1000) pace_0
      (record { walker = new_walker; sink = [] }) (λ k. Unit {0}) kept_sink-HasNoPanic
      layout-IsInBuffer (omega arith) tt

request_var_bounds_example :
    ((request_var target (codes "REQUEST_URI") new_walker).0 ≢ panic)
    × ((request_var target (codes "REQUEST_URI") new_walker).1.calls
        ≤ new_walker.calls + request_calls)
    × (length (request_var target (codes "REQUEST_URI") new_walker).1.string_cache ≤ cache_limit)
request_var_bounds_example =
    request_var_bounds target (codes "REQUEST_URI") new_walker (omega arith)
