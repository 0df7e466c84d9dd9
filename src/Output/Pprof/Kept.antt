-- ===== src/Output/Pprof/Kept.antt =====
-- The numbering of a stack's frames leaves the counts of the samples as they are.
use php_fast_profile.Base.{ℕ, List, [], ◌∷◌, Option, none, some, ◌≡◌, refl, ◌∙◌}
use php_fast_profile.Base.Map.{value_or}
use php_fast_profile.Base.Text.{Text}
use php_fast_profile.Zend.Frame.{Frame, qualified_name}
use php_fast_profile.Output.Pprof.{
  PprofBuilder, intern_found, function_found, location_found, function_id, location_id, add_frame,
  intern, add_frames,
}

samples-intern_found :
    (s : Text) (o : Option ℕ) (b : PprofBuilder) → (intern_found s o b).0.samples ≡ b.samples
unfolding intern_found
samples-intern_found s none b = refl
samples-intern_found s (some i) b = refl

samples-function_found :
    (n f : ℕ) (o : Option ℕ) (b : PprofBuilder) → (function_found n f o b).0.samples ≡ b.samples
unfolding function_found
samples-function_found n f none b = refl
samples-function_found n f (some i) b = refl

samples-location_found :
    (n l : ℕ) (o : Option ℕ) (b : PprofBuilder) → (location_found n l o b).0.samples ≡ b.samples
unfolding location_found
samples-location_found n l none b = refl
samples-location_found n l (some i) b = refl

samples-add_frame : (f : Frame) (b : PprofBuilder) → (add_frame f b).0.samples ≡ b.samples
unfolding add_frame intern function_id location_id
samples-add_frame f b =
    samples-location_found _ f.line _ _
    ∙ samples-function_found _ _ _ _
    ∙ samples-intern_found (value_or [] f.file) _ _
    ∙ samples-intern_found (qualified_name f) _ b

pub samples-add_frames :
    (frames : List Frame) (b : PprofBuilder) → (add_frames frames b).0.samples ≡ b.samples
unfolding add_frames
samples-add_frames [] b = refl
samples-add_frames (f ∷ frames) b =
    samples-add_frames frames (add_frame f b).0 ∙ samples-add_frame f b
