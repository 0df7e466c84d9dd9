-- ===== src/Output/Stacks/Laws.antt =====
-- What `StacksSink` writes, on a device that may fail.
use php_fast_profile.Base.{ℕ, ◌+◌, List, [], ◌∷◌, ◌++◌, Option, none, some}
use php_fast_profile.Base.Text.{Text, codes}
use php_fast_profile.Zend.Frame.{Frame}
use php_fast_profile.Output.Writer.{Device, Writer}
use php_fast_profile.Output.Writer.Laws.{Appends, Writes, pure-Writes, write-Writes, bind-Writes}
use php_fast_profile.Output.Stacks.{
  SampleMeta, newline, write_header, frame_line, write_frames, write_sample,
}

abbrev header : Text → Option Text → Text
header label none = []
header label (some v) = label ++ (v ++ newline)

abbrev frame_lines : ℕ → List Frame → Text
frame_lines i [] = []
frame_lines i (f ∷ frames) = frame_line i f ++ frame_lines (i + 1) frames

-- The text of a sample: its headers, a numbered line for each frame, and an empty line.
pub sample_text : List Frame → SampleMeta → Text
sample_text frames meta =
    header (codes "# request_uri = ") meta.request_uri
    ++ (header (codes "# request_method = ") meta.request_method
        ++ (frame_lines 0 frames ++ newline))

write_header-Writes :
    (device : Device) (label : Text) (o : Option Text)
    → Writes (header label o) (write_header device label o)
unfolding write_header
write_header-Writes device label none = pure-Writes
write_header-Writes device label (some v) = write-Writes device _

write_frames-Writes :
    (device : Device) (i : ℕ) (frames : List Frame)
    → Writes (frame_lines i frames) (write_frames device i frames)
unfolding write_frames
write_frames-Writes device i [] = pure-Writes
write_frames-Writes device i (f ∷ frames) =
    bind-Writes _ _ _ _ (write-Writes device _) (write_frames-Writes device (i + 1) frames)

-- Whatever the device does, `write_sample` appends the text of the sample, or, if it fails, a front
-- part of that text; it does not panic.
pub write_sample-Appends :
    (device : Device) (frames : List Frame) (meta : SampleMeta) (w : Writer)
    → Appends
        (sample_text frames meta)
        (write_sample device frames meta w).0
        w
        (write_sample device frames meta w).1
unfolding write_sample sample_text
write_sample-Appends device frames meta w =
    (bind-Writes _ _ _ _ (write_header-Writes device (codes "# request_uri = ") meta.request_uri) (
        bind-Writes _ _ _ _
          (write_header-Writes device (codes "# request_method = ") meta.request_method)
          (bind-Writes _ _ _ _ (write_frames-Writes device 0 frames)
            (write-Writes device newline)))).at
      w
