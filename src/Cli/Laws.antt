-- ===== src/Cli/Laws.antt =====
-- The run that the arguments start for one process.
use php_fast_profile.Base.{
  ℕ, zero, suc, ◌+◌, ◌*◌, ◌/◌, ◌%◌, ◌≤◌, ◌<◌, max, Option, some, ◌≡◌, ◌≢◌, refl, ap, ◌∙◌, arith,
}
use php_fast_profile.Base.Act.{ok}
use php_fast_profile.Base.Text.{Text}
use php_fast_profile.Arguments.{Args, Format, stacks, folded, pprof, top}
use php_fast_profile.Output.Sink.{Sink}
use php_fast_profile.Sampler.Pace.{Pace, look}
use php_fast_profile.Sampler.Run
use php_fast_profile.Sampler.Run.{Settings, World, Sampler}
use php_fast_profile.Sampler.Run.Laws.{IsRun, run_lem}
use php_fast_profile.Cli.{run_single, interval, duration, run}
use native.Mathlib.Nat.{mod-lt, div-add-mod'}

-- Fuel for a run of `d` nanoseconds.
abbrev pub enough : (d interval : ℕ) → ℕ
enough d interval = d / interval + 3

add_three-mul : (q i : ℕ) → (q + 3) * i ≡ q * i + 3 * i
add_three-mul q i = omega arith

pub enough_lem : (d i : ℕ) → 0 < i → d + 2 * i ≤ enough d i * i
enough_lem d i pos = omega (arith, div-add-mod' d i, mod-lt d pos, add_three-mul (d / i) i)

-- A rate of at most one sample a nanosecond leaves an interval between them.
pub interval-pos : (args : Args) → args.rate_hz ≤ 1_000_000_000 → 0 < interval args
unfolding interval
interval-pos args h = positive (max args.rate_hz 1) (omega arith) (omega arith)
  where
    positive : (r : ℕ) → 0 < r → r ≤ 1_000_000_000 → 0 < 1_000_000_000 / r
    positive r pos le =
        quotient (1_000_000_000 / r) (1_000_000_000 % r) (div-add-mod' 1_000_000_000 r)
          (mod-lt 1_000_000_000 pos)
      where
        quotient : (k m : ℕ) → k * r + m ≡ 1_000_000_000 → m < r → 0 < k
        quotient zero m e lt = absurd (omega arith)
        quotient (suc k) m e lt = omega arith

pub duration-some :
    (args : Args)
    → args.duration_secs ≢ 0
    → duration args ≡ some (args.duration_secs * 1_000_000_000)
unfolding duration
duration-some args h = ground (arith, h)

-- The interval is the longest with which the samples of a second reach the rate.
pub interval-rate :
    (args : Args)
    → (interval args * max args.rate_hz 1 ≤ 1_000_000_000)
      × (1_000_000_000 < (interval args + 1) * max args.rate_hz 1)
unfolding interval
interval-rate args =
    let r = max args.rate_hz 1 in
    omega (
      arith,
      div-add-mod' 1_000_000_000 r,
      mod-lt 1_000_000_000 (positive args.rate_hz),
      add_one-mul (1_000_000_000 / r) r,
    )
  where
    positive : (n : ℕ) → 0 < max n 1
    positive n = omega arith

    add_one-mul : (q i : ℕ) → (q + 1) * i ≡ q * i + i
    add_one-mul q i = omega arith

pub run-single :
    (args : Args) (cg : Option Text) (pid : ℕ) (format : Format)
    → args.format ≡ format
    → format ≢ top
    → args.pid ≡ some pid
    → run args cg ≡ ok (run_single pid (interval args) (duration args))
unfolding run
run-single args cg pid stacks e h p = rw (e, p) refl
run-single args cg pid folded e h p = rw (e, p) refl
run-single args cg pid pprof e h p = rw (e, p) refl
run-single args cg pid top e h p = absurd (h refl)

-- What a run for one process comes to.
pub record IsSingleRun (args : Args) (cg : Option Text) (pid : ℕ) : Type 1 where
  pub i : ℕ
  pub command : run args cg ≡ ok (run_single pid i (some (args.duration_secs * 1_000_000_000)))
  pub rate :
      (i * max args.rate_hz 1 ≤ 1_000_000_000) × (1_000_000_000 < (i + 1) * max args.rate_hz 1)
  pub ends :
      {S : Type 0} (sink : Sink S) (settings : Settings) (world : World) (p : Pace)
      (sampler : Sampler S)
      → IsRun sink i (look world.delay p).time (
          Run.run sink settings world
            (enough (args.duration_secs * 1_000_000_000) i)
            i
            (some (args.duration_secs * 1_000_000_000))
            p
            sampler)

-- With a pid, an output other than the live table, a duration, and a rate of at most 10^9 samples a
-- second, the program samples the process with the longest interval of nanoseconds that keeps up
-- with the rate, and whatever happens around it, the run ends: its samples are an interval apart on
-- average, and unless the sampling panics, the sink is finished behind them.
pub run_single_lem :
    (args : Args) (cg : Option Text) (pid : ℕ)
    → args.pid ≡ some pid
    → args.format ≢ top
    → args.duration_secs ≢ 0
    → args.rate_hz ≤ 1_000_000_000
    → IsSingleRun args cg pid
run_single_lem args cg pid p h timed slow = record {
  i = interval args;
  command =
      run-single args cg pid args.format refl h p
      ∙ ap (λ d. ok (run_single pid (interval args) d)) (duration-some args timed);
  rate = interval-rate args;
  ends = λ sink settings world q sampler.
      run_lem sink settings world _ (interval args) _ q sampler (interval-pos args slow)
        (enough_lem _ (interval args) (interval-pos args slow));
}
