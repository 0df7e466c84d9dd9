-- ===== src/Offsets/Ce.antt =====
-- src/offsets.rs, zend_class_entry: `mod ce`.
use php_fast_profile.Base.{ℕ}

abbrev pub name : ℕ
name = 8
