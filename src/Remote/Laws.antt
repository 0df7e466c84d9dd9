-- ===== src/Remote/Laws.antt =====
-- What a read gives, and how many calls it makes.
use php_fast_profile.Base.{ℕ, zero, suc, List, length, ◌≡◌, arith}
use php_fast_profile.Base.Act.{ok}
use php_fast_profile.Remote.{Remote, read}

-- A read never returns a buffer that the call did not fill.
pub length-read :
    (rem : Remote) (addr n t : ℕ) {bytes : List ℕ}
    → (read rem addr n t).0 ≡ ok bytes
    → length bytes ≡ n
unfolding read
length-read rem addr zero t e = ground arith
length-read rem addr (suc n) t e = ground arith
