-- ===== src/Sampler/Multi/Threads/Workers.antt =====
-- The workers of `run_multi`: one for each process, kept while its thread runs.
use php_fast_profile.Base.{
  ℕ, List, [], ◌∷◌, Option, none, some, Bool, true, false, ◌||◌, any, ◌≡◌, refl, arith, ◌==◌,
  nat_eq, if◌then◌else◌,
}
use php_fast_profile.Base.Act.{Outcome, ok, err, panic}
use php_fast_profile.Base.Map.{HashMap, lookup, insert, lookup-insert, IsMap, IsMap-insert}
use php_fast_profile.Sampler.Worker.{Worker, SampleMsg}
use php_fast_profile.Sampler.Multi.{
  System, Phase, annotate, reap, add_worker, spawn_new, spawn_found, spawn_all, after_write,
  receive, main_receive, rediscover, main_timers, drain, finish_multi, start_multi,
}
use php_fast_profile.Sampler.Multi.Threads.{Setup, Step, Reach, after_turn}

-- A worker whose thread runs.
abbrev pub live : Option Worker → Option Worker
live none = none
live (some w) = if w.finished then none else some w

abbrev pub or_new : Option Worker → Option Worker → Option Worker
or_new none new = new
or_new (some w) new = some w

abbrev pub is_found : ℕ → List ℕ → Bool
is_found pid found = any (λ q. q == pid) found

lookup-reap :
    (pid : ℕ) (workers : HashMap ℕ Worker)
    → IsMap workers
    → lookup pid (reap workers) ≡ live (lookup pid workers)
unfolding lookup reap
lookup-reap pid [] h = refl
lookup-reap pid ((q, w) ∷ workers) (fresh, h) = ground (arith, lookup-reap pid workers h, fresh)

lookup-add_worker :
    (pid q : ℕ) (old new : Option Worker) (workers : HashMap ℕ Worker)
    → lookup q workers ≡ old
    → lookup pid (add_worker q old new workers)
      ≡ or_new (lookup pid workers) (if q == pid then new else none)
unfolding add_worker
lookup-add_worker pid q (some w) new workers e = ground (arith, e)
lookup-add_worker pid q none none workers e = ground (arith, e)
lookup-add_worker pid q none (some w) workers e = ground (arith, e, lookup-insert q pid w workers)

lookup-spawn_new :
    (spawn : ℕ → Option Worker) (pid q : ℕ) (workers : HashMap ℕ Worker)
    → lookup pid (spawn_new spawn q workers)
      ≡ or_new (lookup pid workers) (if q == pid then spawn pid else none)
unfolding spawn_new
lookup-spawn_new spawn pid q workers =
    ground (arith, lookup-add_worker pid q (lookup q workers) (spawn q) workers refl)

IsMap-reap : (workers : HashMap ℕ Worker) → IsMap workers → IsMap (reap workers)
unfolding reap lookup
IsMap-reap [] h = tt
IsMap-reap ((q, w) ∷ workers) (fresh, h) =
    ground (arith, IsMap-reap workers h, lookup-reap q workers h)

IsMap-add_worker :
    (q : ℕ) (old new : Option Worker) (workers : HashMap ℕ Worker)
    → IsMap workers
    → IsMap (add_worker q old new workers)
unfolding add_worker
IsMap-add_worker q (some w) new workers h = h
IsMap-add_worker q none none workers h = h
IsMap-add_worker q none (some w) workers h = IsMap-insert q w workers h

IsMap-spawn_new :
    (spawn : ℕ → Option Worker) (q : ℕ) (workers : HashMap ℕ Worker)
    → IsMap workers
    → IsMap (spawn_new spawn q workers)
unfolding spawn_new
IsMap-spawn_new spawn q workers h = IsMap-add_worker q _ _ workers h

IsMap-spawn_found :
    (spawn : ℕ → Option Worker) (found : List ℕ) (workers : HashMap ℕ Worker)
    → IsMap workers
    → IsMap (spawn_found spawn found workers)
unfolding spawn_found
IsMap-spawn_found spawn [] workers h = h
IsMap-spawn_found spawn (q ∷ found) workers h =
    IsMap-spawn_found spawn found (spawn_new spawn q workers) (IsMap-spawn_new spawn q workers h)

lookup-spawn_found :
    (spawn : ℕ → Option Worker) (pid : ℕ) (found : List ℕ) (workers : HashMap ℕ Worker)
    → lookup pid (spawn_found spawn found workers)
      ≡ or_new (lookup pid workers) (if is_found pid found then spawn pid else none)
unfolding spawn_found
lookup-spawn_found spawn pid [] workers = ground arith
lookup-spawn_found spawn pid (q ∷ found) workers = ground (
  arith,
  lookup-spawn_found spawn pid found (spawn_new spawn q workers),
  lookup-spawn_new spawn pid q workers,
)

IsMap-spawn_all :
    (spawn : ℕ → Option Worker) (pids : List ℕ) (workers : HashMap ℕ Worker)
    → IsMap workers
    → IsMap (spawn_all spawn pids workers)
unfolding spawn_all
IsMap-spawn_all spawn [] workers h = h
IsMap-spawn_all spawn (pid ∷ pids) workers h = IsMap-spawn_all spawn pids _ (added (spawn pid))
  where
    added : (o : Option Worker) → IsMap (elim o [ none ↦ workers | some w ↦ insert pid w workers ])
    added none = h
    added (some w) = IsMap-insert pid w workers h

-- After a discovery, a process has the worker that it had, if its thread runs; otherwise, if it was
-- found, the one that could be spawned for it; and none else.
pub lookup-rediscover :
    {S : Type 0} (spawn : ℕ → Option Worker) (found : List ℕ) (pid : ℕ) (s : System S)
    → IsMap s.workers
    → lookup pid (rediscover spawn (ok found) s).workers
      ≡ or_new (live (lookup pid s.workers)) (if is_found pid found then spawn pid else none)
unfolding rediscover
lookup-rediscover spawn found pid s h =
    cc (lookup-spawn_found spawn pid found (reap s.workers), lookup-reap pid s.workers h)

module _ {S : Type 0} (setup : Setup S) where
  after_write-workers :
      (next : Phase) (o : Outcome (Unit {0}) × S) (s : System S)
      → (after_write next o s).workers ≡ s.workers
  unfolding after_write
  after_write-workers next (ok _, k) s = refl
  after_write-workers next (err e, k) s = refl
  after_write-workers next (panic, k) s = refl

  main_receive-workers :
      (stop over : Bool) (channel : List SampleMsg) (s : System S)
      → (if stop || over
          then record s { phase = Phase.draining }
          else receive setup.sink channel s).workers
        ≡ s.workers
  unfolding receive
  main_receive-workers stop over [] s = ground arith
  main_receive-workers stop over (msg ∷ rest) s = ground (
    arith,
    after_write-workers Phase.timing (setup.sink.write_sample msg.frames (annotate msg) s.sink)
        (record s { channel = rest }),
  )

  drain-workers :
      (channel : List SampleMsg) (s : System S) → (drain setup.sink channel s).workers ≡ s.workers
  unfolding drain
  drain-workers [] s = refl
  drain-workers (msg ∷ rest) s = after_write-workers _ _ _

  timers-IsMap :
      (spawn : ℕ → Option Worker) (due : Bool) (found : Outcome (List ℕ)) (s : System S)
      → IsMap s.workers
      → IsMap (main_timers spawn due found s).workers
  unfolding main_timers rediscover
  timers-IsMap spawn false found s h = h
  timers-IsMap spawn true (ok pids) s h =
      IsMap-spawn_found spawn pids (reap s.workers) (IsMap-reap s.workers h)
  timers-IsMap spawn true (err e) s h = IsMap-reap s.workers h
  timers-IsMap spawn true panic s h = h

  step-IsMap :
      (new : List SampleMsg) (s t : System S)
      → Step setup s new t
      → IsMap s.workers
      → IsMap t.workers
  unfolding after_turn main_receive finish_multi
  step-IsMap new s t (Step.work pid w stop alive e f g) h = IsMap-insert pid _ s.workers h
  step-IsMap new s t (Step.receive stop over p) h =
      rw (main_receive-workers stop over s.channel s) h
  step-IsMap new s t (Step.timers spawn due found np p) h = timers-IsMap spawn due found s h
  step-IsMap new s t (Step.drain_one p) h = rw (drain-workers s.channel s) h
  step-IsMap new s t (Step.finish p all) h = tt

-- However the threads interleave, no process ever has two workers.
pub Reach-IsMap :
    {S : Type 0} (setup : Setup S) (k₀ : S) (spawn : ℕ → Option Worker) (initial : Outcome (List ℕ))
    (log : List SampleMsg) (s : System S)
    → Reach setup (start_multi k₀ spawn initial) log s
    → IsMap s.workers
unfolding start_multi
Reach-IsMap setup k₀ spawn (ok pids) log s Reach.start = IsMap-spawn_all spawn pids [] tt
Reach-IsMap setup k₀ spawn (err e) log s Reach.start = tt
Reach-IsMap setup k₀ spawn panic log s Reach.start = tt
Reach-IsMap setup k₀ spawn initial log t (Reach.later {s = s} {log = log'} {new = new} r step) =
    step-IsMap setup new s t step (Reach-IsMap setup k₀ spawn initial log' s r)
