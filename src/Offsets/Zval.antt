-- ===== src/Offsets/Zval.antt =====
-- src/offsets.rs, _zval_struct: `mod zval`, its offsets and the tags that the program tests.
use php_fast_profile.Base.{ℕ}

abbrev pub value : ℕ
value = 0

abbrev pub type_info : ℕ
type_info = 8

abbrev pub is_undef : ℕ
is_undef = 0

abbrev pub is_string : ℕ
is_string = 6

abbrev pub is_array : ℕ
is_array = 7

abbrev pub is_reference : ℕ
is_reference = 10
