-- ===== src/Offsets/Op.antt =====
-- src/offsets.rs, zend_op: `mod op`.
use php_fast_profile.Base.{ℕ}

abbrev pub lineno : ℕ
lineno = 24
