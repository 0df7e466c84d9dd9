-- ===== src/Sampler/Multi/Teardown/Laws.antt =====
-- A stopped run of `run_multi` comes to its end, and what it has written then.
use php_fast_profile.Base.{◌≢◌, true, false}
use php_fast_profile.Base.Map.{IsMap}
use php_fast_profile.Base.{ℕ, ◌+◌, ◌≤◌, length, List, [], ◌++◌, ◌≡◌, inl, inr, nat_eq}
use mathlib.Core.List.{append-nil}
use php_fast_profile.Base.Act.{Outcome, panic}
use php_fast_profile.Sampler.Worker.{Worker, SampleMsg}
use php_fast_profile.Sampler.Multi.{System, Phase}
use php_fast_profile.Sampler.Multi.Threads.{Setup, IsFlag}
use php_fast_profile.Sampler.Multi.Threads.Fed.{feed, samples_of}
use php_fast_profile.Sampler.Multi.Threads.Queue.{IsDelivered}
use php_fast_profile.Sampler.Multi.Teardown.Joins.{running, Left, all_ended, one_runs, left}
use php_fast_profile.Sampler.Multi.Teardown.Steps.{StopStep, IsTeardown}

module _ {S : Type 0} (setup : Setup S) where
  -- All messages were written, in their order, and the sink was finished behind them.
  pub record IsWritten (k₀ : S) (log : List SampleMsg) (result : Outcome (Unit {0})) (s : System S)
      : Type 0 where
    pub main : List SampleMsg
    pub late : List SampleMsg
    pub sink : S
    pub all : log ≡ main ++ late
    pub fed : sink ≡ feed setup.sink (samples_of main late) k₀
    pub answer : result ≡ (setup.sink.finish sink).0
    pub last : s.sink ≡ (setup.sink.finish sink).1

  IsDelivered-IsWritten :
      (k₀ : S) (log : List SampleMsg) (result : Outcome (Unit {0})) (s : System S)
      → s.phase ≡ Phase.returned result
      → s.channel ≡ []
      → result ≢ panic
      → IsDelivered setup k₀ log s
      → IsWritten k₀ log result s
  IsDelivered-IsWritten k₀ log result s p c np (IsDelivered.looping main q h) = elim q [
    | inl e ↦ cc
    | inr e ↦ cc
  ]
  IsDelivered-IsWritten k₀ log result s p c np (IsDelivered.closing main late q h) = elim q [
    | inl e ↦ cc
    | inr e ↦ cc
  ]
  IsDelivered-IsWritten k₀ log result s p c np (IsDelivered.finished main late k q e h) = record {
    main = main;
    late = late;
    sink = k;
    all = cc (h.queue, c, append-nil late);
    fed = h.fed;
    answer = cc (p, q);
    last = e;
  }
  IsDelivered-IsWritten k₀ log result s p c np (IsDelivered.panicked q) = absurd (np (cc (p, q)))

module _ {S : Type 0} (setup : Setup S) where
  -- The main thread is at the receive of its loop, or in its drain.
  pub data IsOpen (s : System S) : Type 0 where
    in_loop : s.phase ≡ Phase.receiving → IsOpen s
    in_drain : s.phase ≡ Phase.draining → IsOpen s

  -- Either the run takes a further step, or it has returned, with all written.
  pub data IsAhead (k₀ : S) (log : List SampleMsg) (t : System S) : Type 0 where
    goes_on : {u : System S} → StopStep setup t u → IsAhead k₀ log t
    over :
        (result : Outcome (Unit {0}))
        → t.phase ≡ Phase.returned result
        → result ≢ panic
        → IsWritten setup k₀ log result t
        → IsAhead k₀ log t

  -- A teardown from `s` on that has taken `n` steps.
  pub record IsEnding (k₀ : S) (log : List SampleMsg) (s : System S) (n : ℕ) (t : System S)
      : Type 0 where
    pub steps : n ≤ length s.channel + running s.workers + 3
    pub ahead : IsAhead k₀ log t

  join_next :
      (k₀ : S) (log : List SampleMsg) (t : System S)
      → t.phase ≡ Phase.joining
      → Left t.workers
      → IsAhead k₀ log t
  join_next k₀ log t p (all_ended all) = goes_on (StopStep.finish p all)
  join_next k₀ log t p (one_runs pid w found runs) =
      goes_on (StopStep.end_thread pid w true found runs (rw p IsFlag.on_join))

  ahead :
      (k₀ : S) (log : List SampleMsg) (t : System S)
      → IsTeardown setup t
      → IsMap t.workers
      → IsDelivered setup k₀ log t
      → ((result : Outcome (Unit {0})) → t.phase ≡ Phase.returned result → result ≢ panic)
      → IsAhead k₀ log t
  ahead k₀ log t (IsTeardown.looping p) m d calm = goes_on (StopStep.leave_loop false p)
  ahead k₀ log t (IsTeardown.draining p) m d calm = goes_on (StopStep.drain_one p)
  ahead k₀ log t (IsTeardown.joining p c) m d calm = join_next k₀ log t p (left t.workers m)
  ahead k₀ log t (IsTeardown.ended result p (inl e)) m d calm = absurd (calm result p e)
  ahead k₀ log t (IsTeardown.ended result p (inr c)) m d calm =
      over result p (calm result p)
        (IsDelivered-IsWritten setup k₀ log result t p c (calm result p) d)
