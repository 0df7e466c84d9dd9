-- ===== src/Offsets/Laws.antt =====
-- The layouts that `pick` can return, and its environment overrides.
use php_fast_profile.Base.{◌+◌, ◌≤◌, Option, some, ◌≡◌, inl, inr, arith, Option-cases, true}
use php_fast_profile.Base.Text.{Text, starts_with}
use php_fast_profile.Offsets.{VersionLayout, base_layout, pick}

-- The fields of a function's tail lie inside the buffer that holds the function.
pub record IsInBuffer (l : VersionLayout) : Type 0 where
  pub filename : l.op_array_filename + 8 ≤ 192
  pub line_start : l.op_array_line_start + 4 ≤ 192

base_layout-IsInBuffer : (v : Text) {l : VersionLayout} → base_layout v ≡ some l → IsInBuffer l
unfolding base_layout
base_layout-IsInBuffer v e = ground arith

base_layout-label :
    (v : Text) {l : VersionLayout} → base_layout v ≡ some l → starts_with v l.label ≡ true
unfolding base_layout
base_layout-label v e = ground arith

-- Whatever the version and the environment, a layout that `pick` returns is labelled with the first
-- characters of the version, and keeps the filename and the line of a function inside the 192
-- bytes that are read of it.
pub pick_sound :
    (c s : Option Text) (v : Text) {l : VersionLayout}
    → pick c s v ≡ some l
    → (starts_with v l.label ≡ true) × IsInBuffer l
unfolding pick
pick_sound c s v {l} e = elim (Option-cases (base_layout v)) [
  | inl p ↦ absurd (ground (arith, p))
  | inr (b, p) ↦
      ground (arith, p, base_layout-IsInBuffer v {l = b} p, base_layout-label v {l = b} p)
]
