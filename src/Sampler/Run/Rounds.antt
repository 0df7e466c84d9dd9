-- ===== src/Sampler/Run/Rounds.antt =====
-- What the rounds of a run do to its time and its counts.
use php_fast_profile.Base.{
  ℕ, zero, suc, ◌+◌, ◌-◌, ◌*◌, ◌≤◌, ◌<◌, Option, none, some, Bool, true, false, leb, ◌≡◌, ◌≢◌, refl,
  arith, if◌then◌else◌,
}
use php_fast_profile.Base.Act.{Outcome, ok, err, panic, Error, continue}
use php_fast_profile.Output.Sink.{Sink}
use php_fast_profile.Sampler.Pace.{look}
use php_fast_profile.Sampler.Pace.Laws.{pace_lem}
use php_fast_profile.Sampler.Run.{
  Settings, World, Running, sample_once, count_result, take_sample, limited, round, go_on, run_loop,
}

add_one-mul : (n i : ℕ) → (n + 1) * i ≡ n * i + i
add_one-mul n i = omega arith

-- No error leaves the loop.
abbrev pub IsCaught : Outcome Bool → Type 0
IsCaught r = (e : Error) → r ≢ err e

module _ {S : Type 0} where
  abbrev pub samples : Running S → ℕ
  samples s = s.taken + s.errors

  -- One sample an interval at most.
  pub record IsOnTime (interval start : ℕ) (s : Running S) : Type 0 where
    pub due : start + samples s * interval ≤ s.pace.next
    pub soon : s.pace.next ≤ s.pace.time + interval

  -- What a round does with `n` samples before it.
  pub record IsRound (interval start n : ℕ) (o : Outcome Bool × Running S) : Type 0 where
    pub kept : IsOnTime interval start o.1
    pub counted : o.0 ≡ ok true → samples o.1 ≡ n + 1
    pub caught : IsCaught o.0

module _ {S : Type 0} (sink : Sink S) (settings : Settings) (world : World)
    (interval start : ℕ) where
  count_result-IsRound :
      (r : Outcome (Unit {0})) (s : Running S)
      → start + (samples s + 1) * interval ≤ s.pace.next
      → s.pace.next ≤ s.pace.time + interval
      → IsRound interval start (samples s) (count_result sink settings world r s)
  unfolding count_result
  count_result-IsRound (ok _) s due soon = record {
    kept = record { due = omega arith; soon = soon };
    counted = λ e. omega arith;
    caught = λ x e. cc;
  }
  count_result-IsRound (err x) s due soon = record {
    kept = record { due = omega arith; soon = soon };
    counted = λ e. omega arith;
    caught = λ x e. cc;
  }
  count_result-IsRound panic s due soon = record {
    kept = record { due = omega arith; soon = soon };
    counted = λ e. cc;
    caught = λ x e. cc;
  }

  take_sample-IsRound :
      (s : Running S)
      → IsOnTime interval start s
      → IsRound interval start (samples s) (take_sample sink settings world interval s)
  unfolding take_sample
  take_sample-IsRound s h =
      let paced = pace_lem world.delay interval s.pace in
      count_result-IsRound (sample_once sink settings s.sampler).0 _
        (omega (arith, h.due, paced.on)) paced.soon

  -- With a duration, a round that goes on began before the end of it.
  abbrev pub IsEarly : Option ℕ → ℕ → Type 0
  IsEarly none n = Unit
  IsEarly (some d) n = n * interval < d + interval

  pub record IsTimed (duration : Option ℕ) (n : ℕ) (o : Outcome Bool × Running S) : Type 0 where
    pub round : IsRound interval start n o
    pub early : o.0 ≡ ok true → IsEarly duration n

  stopped_round :
      (duration : Option ℕ) (s : Running S)
      → IsOnTime interval start s
      → IsTimed duration (samples s) (ok false, s)
  stopped_round duration s h = record {
    round = record { kept = h; counted = λ e. cc; caught = λ x e. cc };
    early = λ e. cc;
  }

  IsOnTime-look :
      (s : Running S)
      → IsOnTime interval start s
      → IsOnTime interval start (record s { pace = look world.delay s.pace })
  unfolding look
  IsOnTime-look s h = record { due = h.due; soon = omega (arith, h.soon) }

  checked :
      (d : ℕ) (b : Bool) (s : Running S)
      → (b ≡ false → samples s * interval < d + interval)
      → IsOnTime interval start s
      → IsTimed
          (some d)
          (samples s)
          (if b then (ok false, s) else take_sample sink settings world interval s)
  checked d true s early h = stopped_round (some d) s h
  checked d false s early h = record { round = take_sample-IsRound s h; early = λ e. early refl }

  limited-IsTimed :
      (duration : Option ℕ) (s : Running S)
      → IsOnTime interval start s
      → IsTimed duration (samples s) (limited sink settings world interval start duration s)
  unfolding limited
  limited-IsTimed none s h = record { round = take_sample-IsRound s h; early = λ e. tt }
  limited-IsTimed (some d) s h =
      let later = IsOnTime-look s h in
      checked d (leb d ((look world.delay s.pace).time - start))
        (record s { pace = look world.delay s.pace })
        (λ e. ground (arith, e, later.due, later.soon)) later

  unless_stopped :
      (duration : Option ℕ) (b : Bool) (s : Running S) (o : Outcome Bool × Running S)
      → IsOnTime interval start s
      → IsTimed duration (samples s) o
      → IsTimed duration (samples s) (if b then (ok false, s) else o)
  unless_stopped duration true s o h timed = stopped_round duration s h
  unless_stopped duration false s o h timed = timed

  pub round-IsTimed :
      (duration : Option ℕ) (s : Running S)
      → IsOnTime interval start s
      → IsTimed duration (samples s) (round sink settings world interval start duration s)
  unfolding round
  round-IsTimed duration s h =
      let on_time : IsOnTime interval start (record s { loads = s.loads + 1 }) = record {
        due = h.due;
        soon = h.soon;
      } in
      unless_stopped duration (world.stop s.loads) _ _ on_time (limited-IsTimed duration _ on_time)

  go_on-IsOnTime :
      (fuel : ℕ) (duration : Option ℕ) (r : Outcome Bool) (s : Running S)
      → IsOnTime interval start s
      → ((s' : Running S)
          → IsOnTime interval start s'
          → IsOnTime interval start
              (run_loop sink settings world fuel interval start duration s').1)
      → IsOnTime interval start
          (continue r
            (λ go.
              go_on sink settings world go
                (run_loop sink settings world fuel interval start duration))
            s).1
  unfolding go_on
  go_on-IsOnTime fuel duration (ok true) s h ih = ih s h
  go_on-IsOnTime fuel duration (ok false) s h ih = h
  go_on-IsOnTime fuel duration (err e) s h ih = h
  go_on-IsOnTime fuel duration panic s h ih = h

  pub run_loop-IsOnTime :
      (fuel : ℕ) (duration : Option ℕ) (s : Running S)
      → IsOnTime interval start s
      → IsOnTime interval start (run_loop sink settings world fuel interval start duration s).1
  unfolding run_loop
  run_loop-IsOnTime zero duration s h = h
  run_loop-IsOnTime (suc fuel) duration s h =
      go_on-IsOnTime fuel duration _ _ (round-IsTimed duration s h).round.kept
        (run_loop-IsOnTime fuel duration)
