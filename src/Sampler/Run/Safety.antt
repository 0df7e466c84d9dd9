-- ===== src/Sampler/Run/Safety.antt =====
-- A run of an attached target does not panic.
use php_fast_profile.Base.{
  ℕ, zero, suc, ◌+◌, ◌*◌, ◌≤◌, ◌-◌, length, List, Option, none, some, Bool, true, false, ◌||◌, leb,
  ◌≢◌, refl, arith, if◌then◌else◌,
}
use php_fast_profile.Base.Act.{Outcome, ok, err, panic, Act, continue}
use php_fast_profile.Base.Safe.{Safe, IsMonotone, Safe-pure, Safe-if, Safe-bind}
use php_fast_profile.Base.Text.{codes}
use php_fast_profile.Zend.Frame.{Frame}
use php_fast_profile.Zend.Walker.{Walk, cache_limit}
use php_fast_profile.Zend.Walker.Budget.{IsBounded, IsBounded-IsMonotone}
use php_fast_profile.Offsets.Laws.{IsInBuffer}
use php_fast_profile.Output.Sink.{Sink, SinkHasNoPanic}
use php_fast_profile.Target.Capture.Bounds.{capture_stack-Safe}
use php_fast_profile.Target.Capture.Request.{request_calls, request_var-Safe}
use php_fast_profile.Sampler.Leaf.{leaf_is_any}
use php_fast_profile.Sampler.Pace.{Pace, look}
use php_fast_profile.Sampler.Run.{
  Settings, World, Sampler, Running, is_empty, sample_meta, on_target, on_sink, write_frames,
  sample_once, count_result, take_sample, limited, round, go_on, run_loop, end_run, begin, run,
}

module _ {S : Type 0} (IsReady : S → Type 0) where
  -- The string cache is within its limit, and the sink is ready.
  abbrev HasCache : ℕ → Sampler S → Type 0
  HasCache k s = (length s.walker.string_cache ≤ cache_limit) × IsReady s.sink

  abbrev RunHasCache : ℕ → Running S → Type 0
  RunHasCache k s = HasCache k s.sampler

  HasCache-IsMonotone : IsMonotone HasCache
  HasCache-IsMonotone = record { up = λ k j s le h. h }

  RunHasCache-IsMonotone : IsMonotone RunHasCache
  RunHasCache-IsMonotone = record { up = λ k j s le h. h }

  on_target-Safe :
      {A : Type 0} (n : ℕ) (m : Walk A) → Safe IsBounded n m → Safe HasCache 0 (on_target {S = S} m)
  on_target-Safe n m sm = record {
    at = λ k j s le inv.
        let (small, ready) = inv in
        let (np, bounded) =
          sm.at s.walker.calls (s.walker.calls + n) s.walker (omega arith)
            (record { calls = omega arith; cache = small }) in
        (np, (bounded.cache, ready));
  }

sample_meta-Safe :
    (b : Bool) (settings : Settings)
    → Safe IsBounded (2 * request_calls) (sample_meta b settings.target)
unfolding sample_meta
sample_meta-Safe false settings = Safe-pure IsBounded-IsMonotone _ _
sample_meta-Safe true settings =
    Safe-bind IsBounded-IsMonotone request_calls request_calls _ _ _ (omega arith)
      (request_var-Safe settings.target (codes "REQUEST_URI"))
      λ uri.
        Safe-bind IsBounded-IsMonotone request_calls 0 _ _ _ (omega arith)
          (request_var-Safe settings.target (codes "REQUEST_METHOD"))
          λ method. Safe-pure IsBounded-IsMonotone 0 _

module _ {S : Type 0} (sink : Sink S) (settings : Settings) (IsReady : S → Type 0)
    (calm : SinkHasNoPanic sink IsReady) (fits : IsInBuffer settings.target.layout) where
  on_sink-Safe :
      (m : Act S (Unit {0}))
      → ((k : S) → IsReady k → ((m k).0 ≢ panic) × IsReady (m k).1)
      → Safe (HasCache IsReady) 0 (on_sink m)
  on_sink-Safe m h = record {
    at = λ k j s le inv.
        let (small, ready) = inv in let (np, still) = h s.sink ready in (np, (small, still));
  }

  write_frames-Safe :
      (frames : List Frame) → Safe (HasCache IsReady) 0 (write_frames sink settings frames)
  unfolding write_frames
  write_frames-Safe frames =
      Safe-if 0 (is_empty frames || leaf_is_any frames settings.drop_leaf) _ _
        (Safe-pure (HasCache-IsMonotone IsReady) 0 _)
        (Safe-bind (HasCache-IsMonotone IsReady) 0 0 0 _ _ (omega arith)
          (on_target-Safe IsReady _ _ (sample_meta-Safe settings.capture_request_info settings))
          λ meta. on_sink-Safe (sink.write_sample frames meta) (calm.write frames meta))

  sample_once-Safe : Safe (HasCache IsReady) 0 (sample_once sink settings)
  unfolding sample_once
  sample_once-Safe =
      Safe-bind (HasCache-IsMonotone IsReady) 0 0 0 _ _ (omega arith)
        (on_target-Safe IsReady _ _ (capture_stack-Safe settings.target fits settings.max_depth))
        λ frames. write_frames-Safe frames

  module _ (world : World) (interval start : ℕ) where
    count_result-calm :
        (r : Outcome (Unit {0})) (s : Running S)
        → r ≢ panic
        → RunHasCache IsReady 0 s
        → ((count_result sink settings world r s).0 ≢ panic)
          × RunHasCache IsReady 0 (count_result sink settings world r s).1
    unfolding count_result
    count_result-calm (ok _) s np h = ((λ e. cc), h)
    count_result-calm (err x) s np h = ((λ e. cc), h)
    count_result-calm panic s np h = absurd (np refl)

    take_sample-Safe : Safe (RunHasCache IsReady) 0 (take_sample sink settings world interval)
    unfolding take_sample
    take_sample-Safe = record {
      at = λ k j s le inv.
          let (np, kept) = sample_once-Safe.at 0 0 s.sampler (omega arith) inv in
          count_result-calm (sample_once sink settings s.sampler).0 _ np kept;
    }

    stop_or :
        (b : Bool) (s : Running S) (o : Outcome Bool × Running S)
        → RunHasCache IsReady 0 s
        → (o.0 ≢ panic) × RunHasCache IsReady 0 o.1
        → ((if b then (ok false, s) else o).0 ≢ panic)
          × RunHasCache IsReady 0 (if b then (ok false, s) else o).1
    stop_or true s o h calm = ((λ e. cc), h)
    stop_or false s o h calm = calm

    limited-Safe :
        (duration : Option ℕ)
        → Safe (RunHasCache IsReady) 0 (limited sink settings world interval start duration)
    unfolding limited
    limited-Safe none = record { at = λ k j s le inv. take_sample-Safe.at k j s le inv }
    limited-Safe (some d) = record {
      at = λ k j s le inv.
          stop_or (leb d ((look world.delay s.pace).time - start)) _ _ inv
            (take_sample-Safe.at 0 0 _ (omega arith) inv);
    }

    round-Safe :
        (duration : Option ℕ)
        → Safe (RunHasCache IsReady) 0 (round sink settings world interval start duration)
    unfolding round
    round-Safe duration = record {
      at = λ k j s le inv.
          stop_or (world.stop s.loads) _ _ inv ((limited-Safe duration).at 0 0 _ (omega arith) inv);
    }

    go_on-Safe :
        (go : Bool) (rest : Act (Running S) Bool)
        → Safe (RunHasCache IsReady) 0 rest
        → Safe (RunHasCache IsReady) 0 (go_on sink settings world go rest)
    unfolding go_on
    go_on-Safe true rest h = h
    go_on-Safe false rest h = Safe-pure (RunHasCache-IsMonotone IsReady) 0 false

    run_loop-Safe :
        (fuel : ℕ) (duration : Option ℕ)
        → Safe (RunHasCache IsReady) 0 (run_loop sink settings world fuel interval start duration)
    unfolding run_loop
    run_loop-Safe zero duration = Safe-pure (RunHasCache-IsMonotone IsReady) 0 true
    run_loop-Safe (suc fuel) duration =
        Safe-bind (RunHasCache-IsMonotone IsReady) 0 0 0 _ _ (omega arith) (round-Safe duration)
          λ go. go_on-Safe go _ (run_loop-Safe fuel duration)

    end_run-ne-panic :
        (going : Bool) (s : Running S)
        → RunHasCache IsReady 0 s
        → (end_run sink settings world going s).0 ≢ panic
    unfolding end_run
    end_run-ne-panic true s h = λ e. cc
    end_run-ne-panic false s (small, ready) = calm.finish s.sampler.sink ready

continue-ne-panic :
    {S A B : Type 0} (r : Outcome A) (f : A → Act S B) (s : S)
    → r ≢ panic
    → ((a : A) → (f a s).0 ≢ panic)
    → (continue r f s).0 ≢ panic
continue-ne-panic (ok a) f s h k = k a
continue-ne-panic (err e) f s h k = λ e. cc
continue-ne-panic panic f s h k = λ e. h refl

-- If the target's layout keeps its fields in the function buffer, as that of an attached target does,
-- the string cache is within its limit, and the sink is ready and does not panic while it is, then the
-- run does not panic, whatever the target's memory, the signals and the clock do, and for any
-- duration.
pub run-ne-panic :
    {S : Type 0} (sink : Sink S) (settings : Settings) (world : World) (fuel interval : ℕ)
    (duration : Option ℕ) (p : Pace) (sampler : Sampler S) (IsReady : S → Type 0)
    → SinkHasNoPanic sink IsReady
    → IsInBuffer settings.target.layout
    → length sampler.walker.string_cache ≤ cache_limit
    → IsReady sampler.sink
    → (run sink settings world fuel interval duration p sampler).0 ≢ panic
unfolding run begin
run-ne-panic sink settings world fuel interval duration p sampler IsReady calm fits small ready =
    let (np, kept) =
      (run_loop-Safe sink settings IsReady calm fits world interval _ fuel duration).at 0 0 _
        (omega arith) (small, ready) in
    continue-ne-panic _ _ _ np
      (λ going. end_run-ne-panic sink settings IsReady calm fits world interval 0 going _ kept)
