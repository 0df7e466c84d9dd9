-- ===== src/Sampler/Pace/Laws.antt =====
-- The rate at which samples are taken.
use php_fast_profile.Base.{ℕ, ◌+◌, ◌*◌, ◌≤◌, ◌≡◌, arith}
use php_fast_profile.Sampler.Pace.{Pace, look, wait, snap, catch_up, pace}

-- How a round moves the time at which the next sample is due: on by an interval at least, to an
-- interval from now at most, and at most four intervals into the past.
pub record IsPaced (interval : ℕ) (p q : Pace) : Type 0 where
  pub on : p.next + interval ≤ q.next
  pub soon : q.next ≤ q.time + interval
  pub recent : q.time ≤ q.next + interval * 4
  pub clock : p.time ≤ q.time

module _ (delay : ℕ → ℕ) (interval : ℕ) where
  catch_up_lem :
      (p : Pace)
      → p.next ≤ p.time + interval
      → (p.next ≤ (catch_up delay interval p).next)
        × ((catch_up delay interval p).next ≤ (catch_up delay interval p).time + interval)
        × ((catch_up delay interval p).time ≤ (catch_up delay interval p).next + interval * 4)
        × (p.time ≤ (catch_up delay interval p).time)
  unfolding catch_up snap look
  catch_up_lem p h = ground arith

  wait_lem :
      (p : Pace)
      → (p.next ≤ (wait delay p).time)
        × (p.time ≤ (wait delay p).time)
        × ((wait delay p).next ≡ p.next)
  unfolding wait
  wait_lem p = ground arith

  -- A round moves the time at which the next sample is due on by an interval at least, to an interval
  -- from now at most, and leaves it at most four intervals in the past; the clock does not go back.
  pub pace_lem : (p : Pace) → IsPaced interval p (pace delay interval p)
  unfolding pace look
  pace_lem p =
      let (due, ran, kept) = wait_lem (look delay p) in
      let (on, soon, recent, clock) =
        catch_up_lem
          (record (wait delay (look delay p)) {
            next = (wait delay (look delay p)).next + interval;
          })
          (omega arith) in
      record { on = omega arith; soon = soon; recent = recent; clock = omega arith }
