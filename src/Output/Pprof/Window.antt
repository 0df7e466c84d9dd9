-- ===== src/Output/Pprof/Window.antt =====
-- The end of a window of `PprofBuilder`: `take_gzipped`.
use php_fast_profile.Base.{ℕ, List, Option, none, some, ◌≡◌, ◌-◌, refl, ap, ◌∙◌, list_eq, nat_eq}
use php_fast_profile.Base.Act.{Outcome, ok}
use php_fast_profile.Base.Text.{Text, codes}
use php_fast_profile.Base.Map.{lookup}
use php_fast_profile.Output.Pprof.{
  PprofBuilder, Profile, intern, intern_found, take_gzipped, encoded, reset_window, drained,
  profile_of, new,
}
use php_fast_profile.Output.Pprof.Index.{get_from}
use php_fast_profile.Output.Pprof.Invariant.{IsWellFormed, intern-Interned}

-- The profile that a window ends in, for a builder that collected it.
pub record Describes (now : ℕ) (b : PprofBuilder) (p : Profile) : Type 0 where
  pub sample : p.sample ≡ b.samples
  pub location : p.location ≡ b.locations
  pub function : p.function ≡ b.functions
  pub time : p.time_nanos ≡ b.window_start_nanos
  pub duration : p.duration_nanos ≡ now - b.window_start_nanos
  pub unit : get_from 0 p.string_table p.sample_unit ≡ some (codes "count")
  pub kind : get_from 0 p.string_table p.sample_type ≡ some (codes "samples")
  pub strings :
      (i : ℕ) (s : Text) → get_from 0 b.strings i ≡ some s → get_from 0 p.string_table i ≡ some s

-- What interning a string leaves as it is.
record Untouched (b c : PprofBuilder) : Type 0 where
  samples : c.samples ≡ b.samples
  locations : c.locations ≡ b.locations
  functions : c.functions ≡ b.functions
  start : c.window_start_nanos ≡ b.window_start_nanos

Untouched-trans : {b c d : PprofBuilder} → Untouched b c → Untouched c d → Untouched b d
Untouched-trans x y = record {
  samples = y.samples ∙ x.samples;
  locations = y.locations ∙ x.locations;
  functions = y.functions ∙ x.functions;
  start = y.start ∙ x.start;
}

Untouched-intern_found :
    (s : Text) (o : Option ℕ) (b : PprofBuilder) → Untouched b (intern_found s o b).0
unfolding intern_found
Untouched-intern_found s none b = record {
  samples = refl;
  locations = refl;
  functions = refl;
  start = refl;
}
Untouched-intern_found s (some i) b = record {
  samples = refl;
  locations = refl;
  functions = refl;
  start = refl;
}

Untouched-intern : (s : Text) (b : PprofBuilder) → Untouched b (intern s b).0
unfolding intern
Untouched-intern s b = Untouched-intern_found s _ b

window_profile : ℕ → PprofBuilder → Profile
window_profile now b =
    let (b₁, unit) = intern (codes "count") b in
    let (b₂, kind) = intern (codes "samples") b₁ in profile_of kind unit now b₂

window_profile-Describes :
    (now : ℕ) (b : PprofBuilder) → IsWellFormed b → Describes now b (window_profile now b)
unfolding window_profile profile_of
window_profile-Describes now b v =
    let unit = intern-Interned (codes "count") b v in
    let b₁ = (intern (codes "count") b).0 in
    let kind = intern-Interned (codes "samples") b₁ unit.valid in
    let whole =
      Untouched-trans (Untouched-intern (codes "count") b)
        (Untouched-intern (codes "samples") b₁) in
    record {
      sample = whole.samples;
      location = whole.locations;
      function = whole.functions;
      time = whole.start;
      duration = ap (λ t. now - t) whole.start;
      unit = kind.keeps.strings _ _ unit.means;
      kind = kind.means;
      strings = λ i s h. kind.keeps.strings i s (unit.keeps.strings i s h);
    }

reset_window-drained : (now : ℕ) (b : PprofBuilder) → reset_window now (drained b) ≡ new now
unfolding reset_window drained new intern intern_found lookup
reset_window-drained now b = refl

-- The window that `take_gzipped` ended.
pub record EndsWindow (now : ℕ) (b : PprofBuilder) (encode : Profile → List ℕ)
    (r : Outcome (List ℕ × ℕ × ℕ) × PprofBuilder) : Type 0 where
  pub profile : Profile
  pub describes : Describes now b profile
  pub result : r ≡ (ok (encode profile, b.window_start_nanos, now), new now)

-- With an encoder that does not fail, `take_gzipped` on a well-formed builder encodes one profile,
-- which has the builder's samples, locations, functions and strings under their numbers, the
-- window's start and length, and "samples" and "count" as its type and unit. It returns the bytes
-- with the window's two ends, and leaves the builder as `new` makes it at the window's end.
pub take_gzipped_lem :
    (encode : Profile → List ℕ) (now : ℕ) (b : PprofBuilder)
    → IsWellFormed b
    → EndsWindow now b encode (take_gzipped (λ p. ok (encode p)) now b)
unfolding take_gzipped encoded window_profile
take_gzipped_lem encode now b v = record {
  profile = window_profile now b;
  describes = window_profile-Describes now b v;
  result = cc (
    (Untouched-trans (Untouched-intern (codes "count") b)
        (Untouched-intern (codes "samples") (intern (codes "count") b).0)).start,
    reset_window-drained now _,
  );
}
