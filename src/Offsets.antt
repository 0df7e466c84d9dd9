-- ===== src/Offsets.antt =====
-- src/offsets.rs: where the fields of the Zend structures stand.
--
-- `pick` reads two environment variables; their values are arguments here, `none` where a
-- variable is unset or no Unicode text.
pub mod Ex
pub mod Func
pub mod Op
pub mod Zstr
pub mod Ce
pub mod Ht
pub mod Bucket
pub mod Zval
pub mod Laws
use php_fast_profile.Base.{ℕ, ◌^◌, Option, none, some, Bool, ◌∷◌, if◌then◌else◌}
use php_fast_profile.Base.Text.{Text, codes, starts_with, from_str_radix}

pub record VersionLayout : Type 0 where
  pub label : Text
  pub eg_current_execute_data : ℕ
  pub eg_symbol_table : ℕ
  pub op_array_filename : ℕ
  pub op_array_line_start : ℕ

abbrev layout : Text → ℕ → ℕ → ℕ → VersionLayout
layout name current filename line_start = record {
  label = name;
  eg_current_execute_data = current;
  eg_symbol_table = 304;
  op_array_filename = filename;
  op_array_line_start = line_start;
}

abbrev pub layout_8_0 : VersionLayout
layout_8_0 = layout (codes "8.0") 488 144 152

abbrev pub layout_8_1 : VersionLayout
layout_8_1 = layout (codes "8.1") 488 144 152

abbrev pub layout_8_2 : VersionLayout
layout_8_2 = layout (codes "8.2") 488 152 160

abbrev pub layout_8_3 : VersionLayout
layout_8_3 = layout (codes "8.3") 488 144 152

abbrev pub layout_8_4 : VersionLayout
layout_8_4 = layout (codes "8.4") 488 168 176

abbrev pub layout_8_5 : VersionLayout
layout_8_5 = layout (codes "8.5") 512 168 176

-- `str::parse::<u64>`.
abbrev parse_u64 : Text → Option ℕ
parse_u64 = from_str_radix 10 (2 ^ 64)

abbrev parsed : Option Text → Option ℕ
parsed none = none
parsed (some v) = parse_u64 v

-- The layout of a minor version, by the version's first characters.
unfoldable pub base_layout : Text → Option VersionLayout
base_layout v =
    if starts_with v (codes "8.0")
    then some layout_8_0
    else if starts_with v (codes "8.1")
    then some layout_8_1
    else if starts_with v (codes "8.2")
    then some layout_8_2
    else if starts_with v (codes "8.3")
    then some layout_8_3
    else if starts_with v (codes "8.4")
    then some layout_8_4
    else if starts_with v (codes "8.5")
    then some layout_8_5
    else none

override_current : Option ℕ → VersionLayout → VersionLayout
override_current none l = l
override_current (some n) l = record l { eg_current_execute_data = n }

override_symbols : Option ℕ → VersionLayout → VersionLayout
override_symbols none l = l
override_symbols (some n) l = record l { eg_symbol_table = n }

-- `pick`, with PFP_EG_CURRENT_EXECUTE_DATA and PFP_EG_SYMBOL_TABLE.
unfoldable pub pick : Option Text → Option Text → Text → Option VersionLayout
unfolding override_current override_symbols
pick env_current env_symbols version = elim (base_layout version) [
  | none ↦ none
  | some l ↦ some (override_symbols (parsed env_symbols) (override_current (parsed env_current) l))
]
