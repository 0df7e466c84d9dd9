-- ===== src/Offsets/Bucket.antt =====
-- src/offsets.rs, _Bucket: `mod bucket`.
use php_fast_profile.Base.{ℕ}

abbrev pub size : ℕ
size = 32

abbrev pub val : ℕ
val = 0

abbrev pub key : ℕ
key = 24
