-- ===== src/Offsets/Ht.antt =====
-- src/offsets.rs, _zend_array: `mod ht`.
use php_fast_profile.Base.{ℕ}

abbrev pub ar_data : ℕ
ar_data = 16

abbrev pub n_num_used : ℕ
n_num_used = 24
