-- ===== src/Output/Stacks.antt =====
-- src/output/mod.rs, `render_frame` and `StacksSink`.
pub mod Laws
use php_fast_profile.Base.{ℕ, ◌+◌, List, [], ◌∷◌, ◌++◌, Option, none, some}
use php_fast_profile.Base.Act.{Outcome, ok, Act, pure, ◌>>=◌}
use php_fast_profile.Base.Map.{value_or}
use php_fast_profile.Base.Text.{Text, codes, to_string}
use php_fast_profile.Zend.Frame.{Frame, qualified_name}
use php_fast_profile.Output.Writer.{Device, Writer, write, flush}

pub record SampleMeta : Type 0 where
  pub request_uri : Option Text
  pub request_method : Option Text

unfoldable pub render_frame : Frame → Text
render_frame f =
    qualified_name f
    ++ (codes " " ++ (value_or (codes "<unknown>") f.file ++ (codes ":" ++ to_string f.line)))

abbrev pub newline : Text
newline = 10 ∷ []

-- `if let Some(v) = .. { writeln!(..)? }`
write_header : Device → Text → Option Text → Act Writer (Unit {0})
write_header device label none = pure tt
write_header device label (some v) = write device (label ++ (v ++ newline))

abbrev frame_line : ℕ → Frame → Text
frame_line i f = to_string i ++ (codes " " ++ (render_frame f ++ newline))

write_frames : Device → ℕ → List Frame → Act Writer (Unit {0})
write_frames device i [] = pure tt
write_frames device i (f ∷ frames) = do
  _ ← write device (frame_line i f)
  write_frames device (i + 1) frames

unfoldable pub write_sample : Device → List Frame → SampleMeta → Act Writer (Unit {0})
unfolding write_header write_frames
write_sample device frames meta = do
  _ ← write_header device (codes "# request_uri = ") meta.request_uri
  _ ← write_header device (codes "# request_method = ") meta.request_method
  _ ← write_frames device 0 frames
  write device newline

unfoldable pub finish : Device → Act Writer (Unit {0})
finish device = flush device
