-- ===== src/Sampler/Pace.antt =====
-- src/sampler.rs: when a sample is due. The three sampling loops share these lines.
--
-- The time is a number of nanoseconds, and `Duration`s and `Instant`s are below their limits. Every
-- look at the clock is behind the one before by what the parameter `delay` says for it, so the clock
-- never goes back, and a sleep lasts as long as it was asked to, or longer.
pub mod Laws
use php_fast_profile.Base.{ℕ, ◌+◌, ◌-◌, ◌*◌, ltb, Bool, if◌then◌else◌}

-- The clock, with how often it was looked at, and the time at which the next sample is due.
pub record Pace : Type 0 where
  pub time : ℕ
  pub looks : ℕ
  pub next : ℕ

module _ (delay : ℕ → ℕ) where
  -- `Instant::now()`, whose result is the time of the state.
  unfoldable pub look : Pace → Pace
  look p = record { time = p.time + delay p.looks; looks = p.looks + 1; next = p.next }

  -- `if now < next { sleep(next - now) }`
  unfoldable pub wait : Pace → Pace
  wait p = if ltb p.time p.next then record p { time = p.time + (p.next - p.time) } else p

  -- `next = Instant::now() + interval`
  unfoldable pub snap : ℕ → Pace → Pace
  snap interval p = let q = look p in record q { next = q.time + interval }

  -- `if Instant::now() > next + interval * 4 { .. }`
  unfoldable pub catch_up : ℕ → Pace → Pace
  catch_up interval p =
      let q = look p in if ltb (q.next + interval * 4) q.time then snap interval q else q

  -- From the first look at the clock of a round to the sample.
  unfoldable pub pace : ℕ → Pace → Pace
  pace interval p =
      let q = wait (look p) in catch_up interval (record q { next = q.next + interval })
