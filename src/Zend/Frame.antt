-- ===== src/Zend/Frame.antt =====
-- src/zend.rs, `Frame`, and the name under which the outputs show one. An `Arc<str>` is its text.
use php_fast_profile.Base.{ℕ, Option, none, some, ◌++◌}
use php_fast_profile.Base.Text.{Text, codes}

pub record Frame : Type 0 where
  pub function : Text
  pub class : Option Text
  pub file : Option Text
  pub line : ℕ

abbrev qualify : Option Text → Text → Text
qualify none function = function
qualify (some c) function = c ++ (codes "::" ++ function)

-- `Class::method` or `function`: `qualified_name` of src/tui.rs, which src/output/mod.rs and
-- src/output/pprof_sink.rs write out in place.
unfoldable pub qualified_name : Frame → Text
qualified_name f = qualify f.class f.function
