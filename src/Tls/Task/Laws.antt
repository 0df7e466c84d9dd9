-- ===== src/Tls/Task/Laws.antt =====
-- Which task is picked, and that a task that was attached is always let go.
use php_fast_profile.Base.{
  ℕ, ◌+◌, ◌≤◌, ◌<◌, length, List, [], ◌∷◌, ◌++◌, All, Option, none, some, ◌≡◌, refl, ◌≢◌, ◌⊎◌, inl,
  inr, arith, ◌==◌, Bool-cases, ==_iff,
}
use php_fast_profile.Base.Act.{
  Outcome, ok, err, panic, Error, no_task, wait_timeout, wait_status, wait_failed,
}
use php_fast_profile.Base.Text.{Text}
use php_fast_profile.Tls.Task.{
  Kernel, Call, attach, poll, sleep, run, detach, Waited, tids, any_task, first_or, pick_loop,
  pick_task,
}

-- The clock runs on by two milliseconds at least from one round of the wait to the next, as the sleep makes it.
abbrev pub Ticks : Kernel → Type 0
Ticks kernel = (k : ℕ) → kernel.now k + 2_000_000 ≤ kernel.now (k + 1)

-- Why a wait ends without a stopped task.
abbrev pub IsGivenUp : Error → Type 0
IsGivenUp e = (e ≡ wait_timeout) ⊎ (e ≡ wait_status) ⊎ (e ≡ wait_failed)

abbrev IsWaiting : Call → Type 0
IsWaiting c = (c ≡ poll) ⊎ (c ≡ sleep)

abbrev IsAnswer : Option Error → Type 0
IsAnswer none = Unit
IsAnswer (some e) = IsGivenUp e

record HasWaited (w : Waited) : Type 0 where
  calls : All IsWaiting w.0
  answer : IsAnswer w.1

-- The calls on a task that was attached, and the result: the closure runs once, when the task has
-- stopped, or not at all, and the task is detached once, at the end, unless the closure panics.
pub data IsReleased {ℓ} {R : Type ℓ} (result : Outcome R) : Outcome R × List Call → Type ℓ where
  ran :
      (waits : List Call)
      → All IsWaiting waits
      → result ≢ panic
      → IsReleased result (result, attach ∷ (waits ++ (run ∷ detach ∷ [])))
  kept :
      (waits : List Call)
      → All IsWaiting waits
      → result ≡ panic
      → IsReleased result (panic, attach ∷ (waits ++ (run ∷ [])))
  gave_up :
      {e : Error} (waits : List Call)
      → All IsWaiting waits
      → IsGivenUp e
      → IsReleased result (err e, attach ∷ (waits ++ (detach ∷ [])))

-- The first task that is not the leader, the leader if it is alone, or none.
pub data IsPicked (pid : ℕ) : List ℕ → Outcome ℕ → Type 0 where
  nobody : IsPicked pid [] (err no_task)
  leader : {ts : List ℕ} → 0 < length ts → All (λ t. t ≡ pid) ts → IsPicked pid ts (ok pid)
  worker :
      {t : ℕ} (front back : List ℕ)
      → All (λ u. u ≡ pid) front
      → t ≢ pid
      → IsPicked pid (front ++ (t ∷ back)) (ok t)

-- One more leader in front, behind a task that was seen.
IsPicked-leader :
    {pid : ℕ} {ts : List ℕ} {r : Outcome ℕ}
    → 0 < length ts
    → IsPicked pid ts r
    → IsPicked pid (pid ∷ ts) r
IsPicked-leader h nobody = absurd (omega arith)
IsPicked-leader h (leader p q) = leader (omega arith) (refl, q)
IsPicked-leader {pid} h (worker front back q ne) = worker (pid ∷ front) back (refl, q) ne

pick_seen : (pid : ℕ) (ts : List ℕ) → IsPicked pid (pid ∷ ts) (pick_loop pid (some pid) ts)
unfolding pick_loop first_or any_task
pick_seen pid [] = leader (omega arith) (refl, tt)
pick_seen pid (t ∷ ts) = elim (Bool-cases (t == pid)) [
  | inl e ↦ rw e (rw ((==_iff t pid).0 e) (IsPicked-leader (omega arith) (pick_seen pid ts)))
  | inr e ↦ rw e (worker (pid ∷ []) ts (refl, tt) (ground (arith, e)))
]

pick_first : (pid : ℕ) (ts : List ℕ) → IsPicked pid ts (pick_loop pid none ts)
unfolding pick_loop first_or any_task
pick_first pid [] = nobody
pick_first pid (t ∷ ts) = elim (Bool-cases (t == pid)) [
  | inl e ↦ rw e (rw ((==_iff t pid).0 e) (pick_seen pid ts))
  | inr e ↦ rw e (worker [] ts tt (ground (arith, e)))
]

-- If the tasks of a process can be listed, the one that is picked is the first that is not the
-- leader, or the leader if it is alone; the only error is that no entry is a task.
pub pick_task_lem :
    (pid : ℕ) (entries : List (Option Text))
    → IsPicked pid (tids entries) (pick_task pid (some entries))
unfolding pick_task
pick_task_lem pid entries = pick_first pid (tids entries)
