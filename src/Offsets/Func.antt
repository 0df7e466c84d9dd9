-- ===== src/Offsets/Func.antt =====
-- src/offsets.rs, zend_function.common: `mod func`.
use php_fast_profile.Base.{ℕ}

abbrev pub type : ℕ
type = 0

abbrev pub type_internal : ℕ
type_internal = 1

abbrev pub type_user : ℕ
type_user = 2

abbrev pub function_name : ℕ
function_name = 8

abbrev pub scope : ℕ
scope = 16
