-- ===== src/Sampler/Multi.antt =====
-- src/sampler.rs, `run_multi`: a worker thread for each process, and a main thread that writes.
--
-- The state is what the threads share and what the main thread keeps. The main thread's program is
-- cut into steps, between which the workers take theirs, in any order. The channel is a queue; the
-- main thread holds a sender, so that a receive finds the first message or times out. The timers,
-- the signal, and what discovery and attaching give are arguments of the steps that look at them.
pub mod Teardown
pub mod Threads
use php_fast_profile.Base.{
  ℕ, ◌+◌, List, [], ◌∷◌, ◌++◌, map, Option, none, some, Bool, true, false, ◌||◌, if◌then◌else◌,
  nat_eq,
}
use php_fast_profile.Base.Act.{Outcome, ok, err, panic}
use php_fast_profile.Base.Map.{HashMap, lookup, insert}
use php_fast_profile.Base.Text.{Text, codes, to_string}
use php_fast_profile.Output.Stacks.{SampleMeta}
use php_fast_profile.Output.Sink.{Sink}
use php_fast_profile.Sampler.Worker.{Worker, SampleMsg}

-- Where the main thread is: before the receive of its loop, before the timers, in the two loops of
-- the teardown, or behind `run_multi`, with its result.
pub data Phase : Type 0 where
  receiving timing draining joining : Phase
  returned : Outcome (Unit {0}) → Phase

pub record System (S : Type 0) : Type 0 where
  pub workers : HashMap ℕ Worker
  pub channel : List SampleMsg
  pub sink : S
  pub taken : ℕ
  pub phase : Phase

tag_uri : ℕ → Option Text → Option Text
tag_uri pid none = none
tag_uri pid (some u) = some (codes "[pid " ++ (to_string pid ++ (codes "] " ++ u)))

-- `meta.request_uri` with the pid in front.
unfoldable pub annotate : SampleMsg → SampleMeta
unfolding tag_uri
annotate msg = record msg.meta { request_uri = tag_uri msg.pid msg.meta.request_uri }

-- `retain`: the workers whose threads have finished are dropped.
unfoldable pub reap : HashMap ℕ Worker → HashMap ℕ Worker
reap [] = []
reap ((pid, w) ∷ workers) = let rest = reap workers in if w.finished then rest else (pid, w) ∷ rest

unfoldable pub add_worker : ℕ → Option Worker → Option Worker → HashMap ℕ Worker → HashMap ℕ Worker
add_worker pid (some w) new workers = workers
add_worker pid none none workers = workers
add_worker pid none (some w) workers = insert pid w workers

-- `if !workers.contains_key(&pid) && let Some(h) = spawn_worker(..) { .. }`
unfoldable pub spawn_new : (ℕ → Option Worker) → ℕ → HashMap ℕ Worker → HashMap ℕ Worker
spawn_new spawn pid workers = add_worker pid (lookup pid workers) (spawn pid) workers

unfoldable pub spawn_found : (ℕ → Option Worker) → List ℕ → HashMap ℕ Worker → HashMap ℕ Worker
spawn_found spawn [] workers = workers
spawn_found spawn (pid ∷ found) workers = spawn_found spawn found (spawn_new spawn pid workers)

-- The initial discovery, which does not look whether a worker is there.
unfoldable pub spawn_all : (ℕ → Option Worker) → List ℕ → HashMap ℕ Worker → HashMap ℕ Worker
spawn_all spawn [] workers = workers
spawn_all spawn (pid ∷ pids) workers =
    spawn_all spawn pids (elim (spawn pid) [ none ↦ workers | some w ↦ insert pid w workers ])

module _ {S : Type 0} where
  -- The start, with what the initial discovery gives.
  unfoldable pub start_multi : S → (ℕ → Option Worker) → Outcome (List ℕ) → System S
  start_multi sink spawn initial = record {
    workers = elim initial [ ok pids ↦ spawn_all spawn pids [] | err e ↦ [] | panic ↦ [] ];
    channel = [];
    sink = sink;
    taken = 0;
    phase = elim initial [
      | ok pids ↦ Phase.receiving
      | err e ↦ Phase.returned (err e)
      | panic ↦ Phase.returned panic
    ];
  }

  -- An error of the sink is logged, and the main thread goes on at `next`.
  unfoldable pub after_write : Phase → Outcome (Unit {0}) × S → System S → System S
  after_write next (panic, k) s = record s { sink = k; phase = Phase.returned panic }
  after_write next (ok _, k) s = record s { sink = k; taken = s.taken + 1; phase = next }
  after_write next (err e, k) s = record s { sink = k; taken = s.taken + 1; phase = next }

  unfoldable pub receive : Sink S → List SampleMsg → System S → System S
  receive sink [] s = record s { phase = Phase.timing }
  receive sink (msg ∷ rest) s =
      after_write Phase.timing (sink.write_sample msg.frames (annotate msg) s.sink)
        (record s { channel = rest })

  -- The first half of a round of the loop: the two breaks, or a receive.
  unfoldable pub main_receive : Sink S → (stop over : Bool) → System S → System S
  main_receive sink stop over s =
      if stop || over then record s { phase = Phase.draining } else receive sink s.channel s

  unfoldable pub rediscover : (ℕ → Option Worker) → Outcome (List ℕ) → System S → System S
  rediscover spawn (ok found) s = record s { workers = spawn_found spawn found (reap s.workers) }
  rediscover spawn (err e) s = record s { workers = reap s.workers }
  rediscover spawn panic s = record s { phase = Phase.returned panic }

  -- The second half: the timer of the discovery.
  unfoldable pub main_timers :
      (ℕ → Option Worker) → (due : Bool) → Outcome (List ℕ) → System S → System S
  main_timers spawn due found s =
      let s' : System S = record s { phase = Phase.receiving } in
      if due then rediscover spawn found s' else s'

  -- A round of the drain; a receive that times out ends it.
  unfoldable pub drain : Sink S → List SampleMsg → System S → System S
  drain sink [] s = record s { phase = Phase.joining }
  drain sink (msg ∷ rest) s =
      after_write Phase.draining (sink.write_sample msg.frames msg.meta s.sink)
        (record s { channel = rest })

  -- Behind the joins.
  unfoldable pub finish_multi : Sink S → System S → System S
  finish_multi sink s =
      let (r, k) = sink.finish s.sink in
      record s { workers = []; sink = k; phase = Phase.returned r }
