-- ===== src/Output/Pprof/Resolve.antt =====
-- The location numbers that `add` makes for a stack mean that stack, and only that stack has them.
use php_fast_profile.Base.{ℕ, List, [], ◌∷◌, map, ◌≡◌, refl, nat_eq, list_eq, pair_eq}
use php_fast_profile.Base.Map.{value_or}
use php_fast_profile.Base.Text.{Text}
use php_fast_profile.Zend.Frame.{Frame, qualified_name}
use php_fast_profile.Output.Pprof.{PprofBuilder, add_frame, add_frames}
use php_fast_profile.Output.Pprof.Invariant.{
  IsWellFormed, Extends, Extends-refl, Extends-trans, Interned, IsString, IsFunction, IsLocation,
  intern-Interned, function_id-Interned, location_id-Interned,
}

-- What a profile shows of a frame.
pub record View : Type 0 where
  pub name : Text
  pub file : Text
  pub line : ℕ

unfoldable pub view_of : Frame → View
view_of f = record { name = qualified_name f; file = value_or [] f.file; line = f.line }

-- The place of a location in its table leads to its function and their strings.
pub record Resolves (b : PprofBuilder) (lid : ℕ) (v : View) : Type 0 where
  pub fid : ℕ
  pub name_idx : ℕ
  pub file_idx : ℕ
  pub location : IsLocation fid v.line b lid
  pub function : IsFunction name_idx file_idx b fid
  pub name : IsString v.name b name_idx
  pub file : IsString v.file b file_idx

pub Resolves-Extends :
    {b c : PprofBuilder} {lid : ℕ} {v : View} → Extends b c → Resolves b lid v → Resolves c lid v
Resolves-Extends x r = record {
  fid = r.fid;
  name_idx = r.name_idx;
  file_idx = r.file_idx;
  location = x.locations _ _ r.location;
  function = x.functions _ _ r.function;
  name = x.strings _ _ r.name;
  file = x.strings _ _ r.file;
}

pub Resolves-unique :
    {b : PprofBuilder} {i j : ℕ} {v : View}
    → IsWellFormed b
    → Resolves b i v
    → Resolves b j v
    → i ≡ j
Resolves-unique {b} {i} {j} {v} w r q = same_location
  where
    same_name : r.name_idx ≡ q.name_idx
    same_name = cc ((w.strings v.name r.name_idx).1 r.name, (w.strings v.name q.name_idx).1 q.name)

    same_file : r.file_idx ≡ q.file_idx
    same_file = cc ((w.strings v.file r.file_idx).1 r.file, (w.strings v.file q.file_idx).1 q.file)

    same_function : r.fid ≡ q.fid
    same_function = cc (
      same_name,
      same_file,
      (w.functions (r.name_idx, r.file_idx) r.fid).1 r.function,
      (w.functions (q.name_idx, q.file_idx) q.fid).1 q.function,
    )

    same_location : i ≡ j
    same_location = cc (
      same_function,
      (w.locations (r.fid, v.line) i).1 r.location,
      (w.locations (q.fid, v.line) j).1 q.location,
    )

add_frame-Interned :
    (f : Frame) (b : PprofBuilder)
    → IsWellFormed b
    → Interned b (add_frame f b) (λ c i. Resolves c i (view_of f))
unfolding add_frame view_of
add_frame-Interned f b v =
    let n = intern-Interned (qualified_name f) b v in
    let m = intern-Interned (value_or [] f.file) _ n.valid in
    let g = function_id-Interned _ _ _ m.valid in
    let l = location_id-Interned _ f.line _ g.valid in
    record {
      valid = l.valid;
      keeps = Extends-trans n.keeps (Extends-trans m.keeps (Extends-trans g.keeps l.keeps));
      means = record {
        fid = _;
        name_idx = _;
        file_idx = _;
        location = l.means;
        function = l.keeps.functions _ _ g.means;
        name = l.keeps.strings _ _ (g.keeps.strings _ _ (m.keeps.strings _ _ n.means));
        file = l.keeps.strings _ _ (g.keeps.strings _ _ m.means);
      };
    }

-- A list of location numbers, frame by frame.
pub data ResolveAll (b : PprofBuilder) : List ℕ → List View → Type 0 where
  done : ResolveAll b [] []
  next :
      {i : ℕ} {v : View} {ids : List ℕ} {views : List View}
      → Resolves b i v
      → ResolveAll b ids views
      → ResolveAll b (i ∷ ids) (v ∷ views)

pub ResolveAll-Extends :
    {b c : PprofBuilder} {ids : List ℕ} {views : List View}
    → Extends b c
    → ResolveAll b ids views
    → ResolveAll c ids views
ResolveAll-Extends x done = done
ResolveAll-Extends x (next r rs) = next (Resolves-Extends x r) (ResolveAll-Extends x rs)

pub ResolveAll-unique :
    {b : PprofBuilder} {ids others : List ℕ} {views : List View}
    → IsWellFormed b
    → ResolveAll b ids views
    → ResolveAll b others views
    → ids ≡ others
ResolveAll-unique w done done = refl
ResolveAll-unique w (next r rs) (next q qs) = cc (Resolves-unique w r q, ResolveAll-unique w rs qs)

pub record AddedFrames (frames : List Frame) (b : PprofBuilder) (r : PprofBuilder × List ℕ)
    : Type 0 where
  pub valid : IsWellFormed r.0
  pub keeps : Extends b r.0
  pub means : ResolveAll r.0 r.1 (map view_of frames)

pub add_frames_lem :
    (frames : List Frame) (b : PprofBuilder)
    → IsWellFormed b
    → AddedFrames frames b (add_frames frames b)
unfolding add_frames
add_frames_lem [] b v = record { valid = v; keeps = Extends-refl b; means = done }
add_frames_lem (f ∷ frames) b v =
    let one = add_frame-Interned f b v in
    let more = add_frames_lem frames (add_frame f b).0 one.valid in
    record {
      valid = more.valid;
      keeps = Extends-trans one.keeps more.keeps;
      means = next (Resolves-Extends more.keeps one.means) more.means;
    }
