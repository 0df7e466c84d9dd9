-- ===== src/Sampler/Multi/Teardown/Joins.antt =====
-- The threads that `run_multi` joins.
use php_fast_profile.Base.{
  ℕ, ◌+◌, List, [], ◌∷◌, ◌++◌, some, All, true, false, ◌≡◌, inl, inr, sym, arith, Bool-cases,
  if◌then◌else◌, nat_eq,
}
use mathlib.Core.List.{append-nil, append_assoc}
use mathlib.Core.Path.{subst}
use php_fast_profile.Base.Map.{HashMap, lookup, insert, IsMap}
use php_fast_profile.Sampler.Worker.{Worker, SampleMsg}
use php_fast_profile.Sampler.Multi.{System}
use php_fast_profile.Sampler.Multi.Threads.{Setup, Reach, IsFinished}

-- How many threads still run.
pub running : HashMap ℕ Worker → ℕ
running [] = 0
running ((pid, w) ∷ workers) = let rest = running workers in if w.finished then rest else rest + 1

-- Either all threads have ended, or there is one that runs.
pub data Left (workers : HashMap ℕ Worker) : Type 0 where
  all_ended : All IsFinished workers → Left workers
  one_runs :
      (pid : ℕ) (w : Worker) → lookup pid workers ≡ some w → w.finished ≡ false → Left workers

pub left : (workers : HashMap ℕ Worker) → IsMap workers → Left workers
left [] h = all_ended tt
left ((q, v) ∷ workers) (fresh, h) = elim (Bool-cases v.finished) [
  | inl e ↦ later e (left workers h)
  | inr e ↦ one_runs q v (unfold lookup in ground arith) e
]
  where
    later : v.finished ≡ true → Left workers → Left ((q, v) ∷ workers)
    later e (all_ended all) = all_ended (e, all)
    later e (one_runs pid w found runs) =
        one_runs pid w (unfold lookup in ground (arith, found, fresh)) runs

pub running-insert :
    (pid : ℕ) (w v : Worker) (workers : HashMap ℕ Worker)
    → lookup pid workers ≡ some w
    → w.finished ≡ false
    → v.finished ≡ true
    → running (insert pid v workers) + 1 ≡ running workers
unfolding lookup insert running
running-insert pid w v [] found runs ends = cc
running-insert pid w v ((q, u) ∷ workers) found runs ends =
    ground (arith, found, runs, ends, running-insert pid w v workers)

module _ {S : Type 0} (setup : Setup S) where
  pub Reach-trans :
      {s₀ s t : System S} {log new : List SampleMsg}
      → Reach setup s₀ log s
      → Reach setup s new t
      → Reach setup s₀ (log ++ new) t
  Reach-trans {s₀} {s = s} {log = log} r Reach.start =
      subst (λ l. Reach setup s₀ l s) (sym (append-nil log)) r
  Reach-trans {s₀} {t = t} {log = log} r (Reach.later {log = a} {new = b} r' step) =
      subst (λ l. Reach setup s₀ l t) (append_assoc log a b) (Reach.later (Reach-trans r r') step)
