-- ===== src/Tls.antt =====
-- src/tls.rs: the executor globals of a thread-safe build, through the thread-local storage of one
-- of its tasks.
--
-- The list of /proc/PID/task and the kernel's answers are parameters.
pub mod Offset
pub mod Task
pub mod Laws
use php_fast_profile.Base.{ℕ, ◌==◌, if◌then◌else◌}
use php_fast_profile.Base.Act.{raise, null_cache, pure, lift, ◌>>=◌}
use php_fast_profile.Base.Bytes.{add64}
use php_fast_profile.Remote
use php_fast_profile.Remote.{Remote, Io}
use php_fast_profile.Symbols.{Arch}
use php_fast_profile.Tls.Offset.{decode_tcb_offset}
use php_fast_profile.Tls.Task.{Kernel, Listing, pick_task, read_tls_base_register}

unfoldable pub resolve_zts_executor_globals : Arch → Kernel → Listing → Remote → ℕ → ℕ → ℕ → Io ℕ
resolve_zts_executor_globals host kernel tasks rem pid tcb_offset_fn eg_offset_var = do
  tcb_offset ← decode_tcb_offset host rem tcb_offset_fn
  tid ← lift (pick_task pid tasks)
  tls_base ← lift (read_tls_base_register host kernel tid).0
  cache_ptr ← Remote.read_u64 rem (add64 tls_base tcb_offset)
  if cache_ptr == 0
      then raise null_cache
      else do eg_offset ← Remote.read_u64 rem eg_offset_var; pure (add64 cache_ptr eg_offset)
