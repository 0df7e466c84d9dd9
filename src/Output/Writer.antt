-- ===== src/Output/Writer.antt =====
-- A `Box<dyn Write + Send>` behind a buffer: a file or the standard output.
--
-- What the device does is a parameter: to the n-th operation it answers `none` for success, or
-- `some k` for an error after `k` characters were taken. The state is the text that was taken.
pub mod Laws
use php_fast_profile.Base.{ℕ, ◌+◌, List, [], ◌++◌, Option, none, some, take}
use php_fast_profile.Base.Act.{Outcome, ok, err, Act, io_failed}
use php_fast_profile.Base.Text.{Text}

abbrev pub Device : Type 0
Device = ℕ → Option ℕ

pub record Writer : Type 0 where
  pub out : Text
  pub operations : ℕ

abbrev pub answer : Option ℕ → Text → Act Writer (Unit {0})
answer none s w = (ok tt, record { out = w.out ++ s; operations = w.operations + 1 })
answer (some k) s w =
    (err io_failed, record { out = w.out ++ take k s; operations = w.operations + 1 })

-- `write!(w, ..)` of a text.
unfoldable pub write : Device → Text → Act Writer (Unit {0})
write device s w = answer (device w.operations) s w

unfoldable pub flush : Device → Act Writer (Unit {0})
flush device w = answer (device w.operations) [] w
