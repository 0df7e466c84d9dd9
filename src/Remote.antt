-- ===== src/Remote.antt =====
-- src/remote.rs: reads of the memory of another process.
--
-- The system call `process_vm_readv` is a parameter: the answer to the t-th call, for an address
-- and a length, is `none` for an errno, or the bytes that it transferred, which may be too few. It
-- depends on t, since the target runs on while it is read. The state of an action is the number
-- of calls made so far.
pub mod Laws
use php_fast_profile.Base.{
  ℕ, zero, suc, ◌+◌, List, Option, none, some, [], ◌∷◌, length, ◌==◌, if◌then◌else◌,
}
use php_fast_profile.Base.Act.{Outcome, ok, err, Error, readv_failed, short_read, Act, pure, ◌>>=◌}
use php_fast_profile.Base.Bytes.{from_le_bytes}
use php_fast_profile.Base.Utf8.{from_utf8_lossy}
use php_fast_profile.Base.Text.{Text}

pub record Remote : Type 0 where
  pub readv : ℕ → ℕ → ℕ → Option (List ℕ)

abbrev pub Io {ℓ} : Type ℓ → Type ℓ
Io A = Act ℕ A

-- The buffer after a call that should have filled its `len` bytes.
unfoldable pub checked : ℕ → Option (List ℕ) → Outcome (List ℕ)
checked len none = err readv_failed
checked len (some bytes) = if length bytes == len then ok bytes else err short_read

-- `Remote::read` into a buffer of `len` bytes; `read_array` and `read_vec` are this with a new buffer.
unfoldable pub read : Remote → ℕ → ℕ → Io (List ℕ)
unfolding checked
read rem addr zero = pure []
read rem addr (suc n) = λ t. (checked (suc n) (rem.readv t addr (suc n)), t + 1)

unfoldable pub read_u64 : Remote → ℕ → Io ℕ
read_u64 rem addr = do buf ← read rem addr 8; pure (from_le_bytes buf)

unfoldable pub read_u32 : Remote → ℕ → Io ℕ
read_u32 rem addr = do buf ← read rem addr 4; pure (from_le_bytes buf)

-- The bytes before the first NUL, or all of them.
unfoldable pub until_nul : List ℕ → List ℕ
until_nul [] = []
until_nul (b ∷ bs) = if b == 0 then [] else b ∷ until_nul bs

unfoldable pub read_cstring : Remote → ℕ → ℕ → Io Text
unfolding until_nul
read_cstring rem addr max =
    if addr == 0
    then pure []
    else (do buf ← read rem addr max; pure (from_utf8_lossy (until_nul buf)))
