-- ===== src/Base/Bytes.antt =====
-- Little-endian machine words as lists of bytes, and wrapping 64-bit arithmetic.
use Prim.Native.Nat.{ℕ, zero, suc, ◌+◌, ◌-◌, ◌*◌, ◌/◌, ◌%◌, ◌^◌, ◌<◌}
use mathlib.Core.Path.{◌≡◌, refl}
use mathlib.Core.List.{List, [], ◌∷◌}
use native.Mathlib.Omega.{arith}
use php_fast_profile.Base.Tests.{ltb, if◌then◌else◌}
use php_fast_profile.Base.Lists.{length, All}

abbrev pub IsByte : ℕ → Type 0
IsByte b = b < 256

-- `u64::from_le_bytes` and `u32::from_le_bytes`.
unfoldable pub from_le_bytes : List ℕ → ℕ
from_le_bytes [] = 0
from_le_bytes (b ∷ bs) = b + 256 * from_le_bytes bs

-- The `n` low bytes of a number, lowest first.
unfoldable pub to_le_bytes : ℕ → ℕ → List ℕ
to_le_bytes zero v = []
to_le_bytes (suc n) v = (v % 256) ∷ to_le_bytes n (v / 256)

-- `a + b` on `u64`, which wraps in a release build, and `wrapping_add`.
abbrev pub add64 : ℕ → ℕ → ℕ
add64 a b = (a + b) % 2 ^ 64

-- The bit pattern of an `i32` as the bit pattern of the `i64` that it converts to.
abbrev pub sign_extend32 : ℕ → ℕ
sign_extend32 w = if ltb w (2 ^ 31) then w else w + (2 ^ 64 - 2 ^ 32)

pub length-to_le_bytes : (n v : ℕ) → length (to_le_bytes n v) ≡ n
unfolding to_le_bytes
length-to_le_bytes zero v = refl
length-to_le_bytes (suc n) v = omega (arith, length-to_le_bytes n (v / 256))

pub All-to_le_bytes : (n v : ℕ) → All IsByte (to_le_bytes n v)
unfolding to_le_bytes
All-to_le_bytes zero v = tt
All-to_le_bytes (suc n) v = (omega arith, All-to_le_bytes n (v / 256))

-- A word of four or eight bytes is read back as it was written.
pub from_le_bytes-to_le_bytes_4 : (v : ℕ) → v < 2 ^ 32 → from_le_bytes (to_le_bytes 4 v) ≡ v
unfolding from_le_bytes to_le_bytes
from_le_bytes-to_le_bytes_4 v h = omega arith

pub from_le_bytes-to_le_bytes_8 : (v : ℕ) → v < 2 ^ 64 → from_le_bytes (to_le_bytes 8 v) ≡ v
unfolding from_le_bytes to_le_bytes
from_le_bytes-to_le_bytes_8 v h = omega arith

pub from_le_bytes-lt :
    (n : ℕ) (bs : List ℕ) → All IsByte bs → length bs ≡ n → from_le_bytes bs < 256 ^ n
unfolding from_le_bytes
from_le_bytes-lt zero [] h e = omega arith
from_le_bytes-lt (suc n) [] h e = absurd (omega arith)
from_le_bytes-lt zero (b ∷ bs) h e = absurd (omega arith)
from_le_bytes-lt (suc n) (b ∷ bs) (hb, hbs) e =
    omega (arith, from_le_bytes-lt n bs hbs (omega arith))
