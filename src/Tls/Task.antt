-- ===== src/Tls/Task.antt =====
-- src/tls.rs, `pick_task`, `with_attached_task` and `read_tls_base_register`: the thread pointer of
-- one task of the target, read while the task is stopped.
--
-- The kernel is a parameter, for each task: whether `ptrace` attaches, the answer to the k-th
-- `waitpid`, the clock in nanoseconds at its k-th reading, and the registers. The calls are kept in
-- order. The loop has fuel for the rounds that fit into its two seconds.
pub mod Laws
use php_fast_profile.Base.{
  ℕ, zero, suc, ◌+◌, List, [], ◌∷◌, ◌++◌, Option, none, some, Bool, true, false, ltb, leb, ◌==◌,
  if◌then◌else◌,
}
use php_fast_profile.Base.Act.{
  Outcome, ok, err, panic, Error, no_task, attach_failed, wait_timeout, wait_status, wait_failed,
  no_registers, open_failed, out_of_fuel,
}
use php_fast_profile.Base.Text.{Text, parse_i32}
use php_fast_profile.Symbols.{Arch, x86_64, aarch64}

-- The names in a directory, `none` for one that is no text; `none` if it cannot be listed.
abbrev pub Listing : Type 0
Listing = Option (List (Option Text))

first_or : Option ℕ → ℕ → Option ℕ
first_or none tid = some tid
first_or (some t) tid = some t

-- The entries whose name is a number, `none` being an entry that cannot be read or is no text.
tid_of : Option Text → Option ℕ
tid_of none = none
tid_of (some name) = parse_i32 name

keep : Option ℕ → List ℕ → List ℕ
keep none ts = ts
keep (some t) ts = t ∷ ts

unfoldable pub tids : List (Option Text) → List ℕ
unfolding tid_of keep
tids [] = []
tids (entry ∷ entries) = keep (tid_of entry) (tids entries)

any_task : Option ℕ → Outcome ℕ
any_task none = err no_task
any_task (some tid) = ok tid

-- The loop over the entries, with the first task that was seen.
unfoldable pub pick_loop : ℕ → Option ℕ → List ℕ → Outcome ℕ
unfolding first_or any_task
pick_loop pid first [] = any_task first
pick_loop pid first (tid ∷ ts) =
    if tid == pid then pick_loop pid (first_or first tid) ts else ok tid

unfoldable pub pick_task : ℕ → Listing → Outcome ℕ
pick_task pid none = err open_failed
pick_task pid (some entries) = pick_loop pid none (tids entries)

pub data WaitStatus : Type 0 where
  still_alive stopped other failed : WaitStatus

pub record Kernel : Type 0 where
  pub attaches : ℕ → Bool
  pub waitpid : ℕ → ℕ → WaitStatus
  pub now : ℕ → ℕ
  -- `user_regs_struct::fs_base`
  pub fs_base : ℕ → Option ℕ
  -- the length and the value of the register set NT_ARM_TLS
  pub arm_tls : ℕ → Option (ℕ × ℕ)

pub data Call : Type 0 where
  attach poll sleep run detach : Call

-- The task stopped, or why it was not waited for any longer.
abbrev pub Waited : Type 0
Waited = List Call × Option Error

again : Waited → Waited
again (calls, e) = (poll ∷ sleep ∷ calls, e)

-- One answer of `waitpid`, with whether the deadline is over then, and what the next rounds give.
unfoldable pub round : WaitStatus → Bool → Waited → Waited
unfolding again
round still_alive true rest = (poll ∷ [], some wait_timeout)
round still_alive false rest = again rest
round stopped late rest = (poll ∷ [], none)
round other late rest = (poll ∷ [], some wait_status)
round failed late rest = (poll ∷ [], some wait_failed)

unfoldable pub wait_loop : Kernel → ℕ → ℕ → ℕ → ℕ → Waited
wait_loop kernel tid deadline zero k = ([], some out_of_fuel)
wait_loop kernel tid deadline (suc fuel) k =
    round (kernel.waitpid tid k) (leb deadline (kernel.now (k + 1)))
      (wait_loop kernel tid deadline fuel (k + 1))

-- What follows the wait; the closure's result is `result`. A closure that panics unwinds past the
-- detach.
unfoldable pub finish_task {ℓ} : {R : Type ℓ} → Outcome R → Waited → Outcome R × List Call
finish_task (ok r) (calls, none) = (ok r, attach ∷ (calls ++ (run ∷ detach ∷ [])))
finish_task (err e) (calls, none) = (err e, attach ∷ (calls ++ (run ∷ detach ∷ [])))
finish_task panic (calls, none) = (panic, attach ∷ (calls ++ (run ∷ [])))
finish_task result (calls, some e) = (err e, attach ∷ (calls ++ (detach ∷ [])))

-- Two seconds, and the rounds of two milliseconds that they hold, with one more.
abbrev pub patience : ℕ
patience = 2_000_000_000

abbrev pub rounds : ℕ
rounds = 1001

unfoldable pub with_attached_task {ℓ} :
    {R : Type ℓ} → Kernel → ℕ → Outcome R → Outcome R × List Call
with_attached_task kernel tid result =
    if kernel.attaches tid
    then finish_task result (wait_loop kernel tid (kernel.now 0 + patience) rounds 0)
    else (err attach_failed, attach ∷ [])

unfoldable pub fs_base_of : Option ℕ → Outcome ℕ
fs_base_of none = err no_registers
fs_base_of (some v) = ok v

arm_tls_of : Option (ℕ × ℕ) → Outcome ℕ
arm_tls_of none = err no_registers
arm_tls_of (some (len, v)) = if ltb len 8 then err no_registers else ok v

unfoldable pub read_tls_base_register : Arch → Kernel → ℕ → Outcome ℕ × List Call
unfolding fs_base_of arm_tls_of
read_tls_base_register x86_64 kernel tid =
    with_attached_task kernel tid (fs_base_of (kernel.fs_base tid))
read_tls_base_register aarch64 kernel tid =
    with_attached_task kernel tid (arm_tls_of (kernel.arm_tls tid))
