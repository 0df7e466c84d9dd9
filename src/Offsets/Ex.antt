-- ===== src/Offsets/Ex.antt =====
-- src/offsets.rs, zend_execute_data: `mod ex`.
use php_fast_profile.Base.{ℕ}

abbrev pub opline : ℕ
opline = 0

abbrev pub func : ℕ
func = 24

abbrev pub prev_execute_data : ℕ
prev_execute_data = 48
