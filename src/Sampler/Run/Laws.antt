-- ===== src/Sampler/Run/Laws.antt =====
-- How long a run takes, and that it ends.
use php_fast_profile.Base.{
  ℕ, zero, suc, ◌+◌, ◌*◌, ◌≤◌, ◌<◌, some, Bool, true, false, ◌≡◌, refl, ◌⊎◌, inl, inr, arith,
}
use php_fast_profile.Base.Act.{Outcome, ok, err, panic, Act, continue}
use php_fast_profile.Output.Sink.{Sink}
use php_fast_profile.Sampler.Pace.{Pace, look}
use php_fast_profile.Sampler.Run.{
  Settings, World, Sampler, Running, go_on, run_loop, end_run, begin, run,
}
use php_fast_profile.Sampler.Run.Rounds.{
  IsCaught, samples, IsOnTime, round-IsTimed, run_loop-IsOnTime,
}

module _ {S : Type 0} (sink : Sink S) (settings : Settings) (world : World)
    (interval start : ℕ) where
  -- The loop has ended, or its sampling has panicked.
  abbrev IsOver : Outcome Bool → Type 0
  IsOver r = (r ≡ ok false) ⊎ (r ≡ panic)

  go_on-IsOver :
      (r : Outcome Bool) (s : Running S) (rest : Act (Running S) Bool)
      → IsCaught r
      → (r ≡ ok true → IsOver (rest s).0)
      → IsOver (continue r (λ go. go_on sink settings world go rest) s).0
  unfolding go_on
  go_on-IsOver (ok true) s rest caught h = h refl
  go_on-IsOver (ok false) s rest caught h = inl refl
  go_on-IsOver (err x) s rest caught h = absurd (caught x refl)
  go_on-IsOver panic s rest caught h = inr refl

  run_loop-IsOver :
      (fuel d : ℕ) (s : Running S)
      → d + 2 * interval ≤ (fuel + samples s) * interval
      → samples s * interval < d + 2 * interval
      → IsOnTime interval start s
      → IsOver (run_loop sink settings world fuel interval start (some d) s).0
  unfolding run_loop
  run_loop-IsOver zero d s enough few h = absurd (omega arith)
  run_loop-IsOver (suc fuel) d s enough few h =
      let timed = round-IsTimed sink settings world interval start (some d) s h in
      go_on-IsOver _ _ _ timed.round.caught λ e.
        run_loop-IsOver fuel d _ (next_enough fuel d (samples s) _ (timed.round.counted e) enough)
          (next_few d (samples s) _ (timed.round.counted e) (timed.early e)) timed.round.kept
    where
      next_enough :
          (fuel d n m : ℕ)
          → m ≡ n + 1
          → d + 2 * interval ≤ (suc fuel + n) * interval
          → d + 2 * interval ≤ (fuel + m) * interval
      next_enough fuel d n m e h = rw e (omega (arith, h))

      next_few :
          (d n m : ℕ) → m ≡ n + 1 → n * interval < d + interval → m * interval < d + 2 * interval
      next_few d n m e h = rw e (omega (arith, h))

-- How a run may end: by a panic of the sampling, or, after samples that were an interval apart on
-- average, with what the sink answers when it is finished.
pub data IsRun {S : Type 0} (sink : Sink S) (interval start : ℕ)
    : Outcome (Unit {0}) × Running S → Type 0 where
  panicked : (s : Running S) → IsOnTime interval start s → IsRun sink interval start (panic, s)
  finished :
      (s : Running S)
      → IsOnTime interval start s
      → IsRun sink interval start (
        (sink.finish s.sampler.sink).0,
        record s { sampler = record s.sampler { sink = (sink.finish s.sampler.sink).1 } },
      )

module _ {S : Type 0} (sink : Sink S) (settings : Settings) (world : World)
    (interval start : ℕ) where
  end_run-IsRun :
      (r : Outcome Bool) (s : Running S)
      → (r ≡ ok false) ⊎ (r ≡ panic)
      → IsOnTime interval start s
      → IsRun sink interval start (continue r (end_run sink settings world) s)
  unfolding end_run
  end_run-IsRun (ok true) s (inl e) h = cc
  end_run-IsRun (ok true) s (inr e) h = cc
  end_run-IsRun (ok false) s over h = finished s h
  end_run-IsRun (err x) s (inl e) h = cc
  end_run-IsRun (err x) s (inr e) h = cc
  end_run-IsRun panic s over h = panicked s h

-- With a duration and an interval of at least a nanosecond, the run ends, whatever the target, the
-- signals and the clock do, on a fuel of two rounds more than the intervals of the duration. Its
-- `n` samples, the failed ones too, have taken the time of `n - 1` intervals at least; and unless the
-- sampling panics, the sink is finished, once, after them.
pub run_lem :
    {S : Type 0} (sink : Sink S) (settings : Settings) (world : World) (fuel interval d : ℕ)
    (p : Pace) (sampler : Sampler S)
    → 0 < interval
    → d + 2 * interval ≤ fuel * interval
    → IsRun sink interval
        (look world.delay p).time
        (run sink settings world fuel interval (some d) p sampler)
unfolding run begin look
run_lem sink settings world fuel interval d p sampler pos enough =
    end_run-IsRun sink settings world interval _ _ _
      (run_loop-IsOver sink settings world interval _ fuel d _ (omega (arith, enough)) (omega arith)
        on_time)
      (run_loop-IsOnTime sink settings world interval _ fuel (some d) _ on_time)
  where
    on_time :
        IsOnTime interval
          (look world.delay p).time
          (begin sink settings world sampler (look world.delay p))
    on_time = record { due = omega arith; soon = omega arith }
