-- ===== src/Output/Pprof.antt =====
-- src/output/pprof_sink.rs: `PprofBuilder` and `PprofSink`.
--
-- The structures that prost makes of proto/profile.proto keep the fields that the builder fills;
-- the others are constants. The protobuf encoding with gzip, and the clock, are parameters.
pub mod Index
pub mod Reader
pub mod Invariant
pub mod Resolve
pub mod Reads
pub mod Kept
pub mod Counts
pub mod Window
use php_fast_profile.Base.{
  ℕ, ◌+◌, ◌-◌, ◌%◌, ◌^◌, List, [], ◌∷◌, ◌++◌, Option, none, some, Bool, true, false, length, nat_eq,
  list_eq, pair_eq,
}
use php_fast_profile.Base.Act.{Outcome, ok, err, panic}
use php_fast_profile.Base.Map.{HashMap, lookup, insert, upsert, value_or}
use php_fast_profile.Base.Text.{Text, codes}
use php_fast_profile.Zend.Frame.{Frame, qualified_name}

pub record Function : Type 0 where
  pub id : ℕ
  pub name : ℕ
  pub system_name : ℕ
  pub filename : ℕ
  pub start_line : ℕ

-- A location with its one line.
pub record Location : Type 0 where
  pub id : ℕ
  pub function_id : ℕ
  pub line : ℕ

pub record PprofBuilder : Type 0 where
  pub strings : List Text
  pub string_idx : HashMap Text ℕ
  pub functions : List Function
  pub function_key : HashMap (ℕ × ℕ) ℕ
  pub locations : List Location
  pub location_key : HashMap (ℕ × ℕ) ℕ
  pub samples : HashMap (List ℕ) ℕ
  pub window_start_nanos : ℕ

intern_found : Text → Option ℕ → PprofBuilder → PprofBuilder × ℕ
intern_found s (some i) b = (b, i)
intern_found s none b =
    let i = length b.strings in
    (record b { strings = b.strings ++ (s ∷ []); string_idx = insert s i b.string_idx }, i)

unfoldable pub intern : Text → PprofBuilder → PprofBuilder × ℕ
unfolding intern_found
intern s b = intern_found s (lookup s b.string_idx) b

function_found : ℕ → ℕ → Option ℕ → PprofBuilder → PprofBuilder × ℕ
function_found name filename (some id) b = (b, id)
function_found name filename none b =
    let id = length b.functions + 1 in
    let f : Function = record {
      id = id;
      name = name;
      system_name = name;
      filename = filename;
      start_line = 0;
    } in
    (
      record b {
        functions = b.functions ++ (f ∷ []);
        function_key = insert (name, filename) id b.function_key;
      },
      id,
    )

unfoldable pub function_id : ℕ → ℕ → PprofBuilder → PprofBuilder × ℕ
unfolding function_found
function_id name filename b =
    function_found name filename (lookup (name, filename) b.function_key) b

location_found : ℕ → ℕ → Option ℕ → PprofBuilder → PprofBuilder × ℕ
location_found fid line (some id) b = (b, id)
location_found fid line none b =
    let id = length b.locations + 1 in
    let l : Location = record { id = id; function_id = fid; line = line } in
    (
      record b {
        locations = b.locations ++ (l ∷ []);
        location_key = insert (fid, line) id b.location_key;
      },
      id,
    )

unfoldable pub location_id : ℕ → ℕ → PprofBuilder → PprofBuilder × ℕ
unfolding location_found
location_id fid line b = location_found fid line (lookup (fid, line) b.location_key) b

-- One round of the loop of `add`.
unfoldable pub add_frame : Frame → PprofBuilder → PprofBuilder × ℕ
add_frame f b =
    let (b₁, name_idx) = intern (qualified_name f) b in
    let (b₂, file_idx) = intern (value_or [] f.file) b₁ in
    let (b₃, fid) = function_id name_idx file_idx b₂ in location_id fid f.line b₃

unfoldable pub add_frames : List Frame → PprofBuilder → PprofBuilder × List ℕ
add_frames [] b = (b, [])
add_frames (f ∷ frames) b =
    let (b', lid) = add_frame f b in let (b'', lids) = add_frames frames b' in (b'', lid ∷ lids)

-- `+= 1` on an `i64`, as a bit pattern.
abbrev pub increment : ℕ → ℕ
increment n = (n + 1) % 2 ^ 64

unfoldable pub count_sample : List ℕ → PprofBuilder → PprofBuilder
count_sample ids b = record b { samples = upsert ids 0 increment b.samples }

unfoldable pub add : List Frame → PprofBuilder → PprofBuilder
add frames b = let (b', ids) = add_frames frames b in count_sample ids b'

abbrev empty_tables : ℕ → PprofBuilder
empty_tables now = record {
  strings = [];
  string_idx = [];
  functions = [];
  function_key = [];
  locations = [];
  location_key = [];
  samples = [];
  window_start_nanos = now;
}

-- `PprofBuilder::new` at the time `now`.
unfoldable pub new : ℕ → PprofBuilder
new now = (intern [] (empty_tables now)).0

unfoldable pub is_empty : PprofBuilder → Bool
is_empty b = elim b.samples [ [] ↦ true | _ ∷ _ ↦ false ]

pub record Profile : Type 0 where
  pub sample_type : ℕ
  pub sample_unit : ℕ
  pub sample : HashMap (List ℕ) ℕ
  pub location : List Location
  pub function : List Function
  pub string_table : List Text
  pub time_nanos : ℕ
  pub duration_nanos : ℕ

-- The profile of the window that ends at `now`; `-` stops at 0, as `.max(0)` does. The samples stand
-- in the order of the association list; the order in which the code drains its `HashMap` is not
-- specified, and any other one is an encoder that puts the samples in that order first.
unfoldable pub profile_of : ℕ → ℕ → ℕ → PprofBuilder → Profile
profile_of kind unit now b = record {
  sample_type = kind;
  sample_unit = unit;
  sample = b.samples;
  location = b.locations;
  function = b.functions;
  string_table = b.strings;
  time_nanos = b.window_start_nanos;
  duration_nanos = now - b.window_start_nanos;
}

-- The builder after the parts of the profile were taken out of it.
unfoldable pub drained : PprofBuilder → PprofBuilder
drained b = record b { samples = []; locations = []; functions = []; strings = [] }

-- The reset at the end of `take_gzipped`.
unfoldable pub reset_window : ℕ → PprofBuilder → PprofBuilder
reset_window now b =
    let (b', _) = intern [] (record b { string_idx = []; function_key = []; location_key = [] }) in
    record b' { window_start_nanos = now }

unfoldable pub encoded :
    ℕ → ℕ → PprofBuilder → Outcome (List ℕ) → Outcome (List ℕ × ℕ × ℕ) × PprofBuilder
encoded start now b (ok bytes) = (ok (bytes, start, now), reset_window now b)
encoded start now b (err e) = (err e, b)
encoded start now b panic = (panic, b)

-- `take_gzipped`, at the time `now`.
unfoldable pub take_gzipped :
    (Profile → Outcome (List ℕ)) → ℕ → PprofBuilder → Outcome (List ℕ × ℕ × ℕ) × PprofBuilder
unfolding encoded
take_gzipped encode now b =
    let (b₁, unit) = intern (codes "count") b in
    let (b₂, kind) = intern (codes "samples") b₁ in
    encoded b₂.window_start_nanos now (drained b₂) (encode (profile_of kind unit now b₂))
