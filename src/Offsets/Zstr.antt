-- ===== src/Offsets/Zstr.antt =====
-- src/offsets.rs, zend_string: `mod zstr`.
use php_fast_profile.Base.{ℕ}

abbrev pub len : ℕ
len = 16

abbrev pub val : ℕ
val = 24
