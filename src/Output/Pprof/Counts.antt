-- ===== src/Output/Pprof/Counts.antt =====
-- The counts of a window's samples.
use php_fast_profile.Base.{
  ℕ, ◌+◌, ◌%◌, ◌^◌, List, [], ◌∷◌, map, All, Bool, true, false, ◌&&◌, ◌≡◌, refl, sym, ◌↔◌, arith,
  ◌==◌, if◌then◌else◌, Eq, eqb, nat_eq, list_eq, list_beq, list_beq_iff, pair_eq,
}
use mathlib.Core.Path.{subst}
use Prim.Native.Nat.{◌<◌}
use php_fast_profile.Base.Map.{lookup, value_or, lookup-upsert}
use php_fast_profile.Zend.Frame.{Frame}
use php_fast_profile.Output.Pprof.{
  PprofBuilder, increment, intern_found, intern, add_frames, count_sample, add, new, empty_tables,
}
use php_fast_profile.Output.Pprof.Kept.{samples-add_frames}
use php_fast_profile.Output.Pprof.Index.{get_from}
use php_fast_profile.Output.Pprof.Invariant.{
  IsWellFormed, Extends, Extends-refl, Extends-trans, intern-Interned,
}
use php_fast_profile.Output.Pprof.Resolve.{
  View, view_of, Resolves, ResolveAll, done, next, ResolveAll-Extends, ResolveAll-unique,
  add_frames_lem,
}
use php_fast_profile.Output.Pprof.Reads.{ReadAll, ResolveAll-ReadAll, ReadAll-ResolveAll}

abbrev pub view_beq : View → View → Bool
view_beq v w = list_beq v.name w.name && list_beq v.file w.file && v.line == w.line

pub view_beq_iff : (v w : View) → (view_beq v w ≡ true) ↔ (v ≡ w)
view_beq_iff v w = ground (arith, list_beq_iff v.name w.name, list_beq_iff v.file w.file)

instance abbrev pub view_eq : Eq View
view_eq = record { beq = view_beq; beq_iff = view_beq_iff }

-- Equal numbers mean equal frames.
Resolves-functional :
    {b : PprofBuilder} {i : ℕ} {v w : View} → Resolves b i v → Resolves b i w → v ≡ w
Resolves-functional {b} {i} {v} {w} r q =
    cc (r.location, q.location, r.function, q.function, r.name, q.name, r.file, q.file)

ResolveAll-functional :
    {b : PprofBuilder} {ids : List ℕ} {views others : List View}
    → ResolveAll b ids views
    → ResolveAll b ids others
    → views ≡ others
ResolveAll-functional done done = refl
ResolveAll-functional (next r rs) (next q qs) =
    cc (Resolves-functional r q, ResolveAll-functional rs qs)

-- The samples of a window, oldest first.
unfoldable pub add_all : List (List Frame) → PprofBuilder → PprofBuilder
add_all [] b = b
add_all (frames ∷ samples) b = add_all samples (add frames b)

-- How many samples show a stack.
pub samples_with : List View → List (List Frame) → ℕ
samples_with views [] = 0
samples_with views (frames ∷ samples) =
    let later = samples_with views samples in
    if eqb (map view_of frames) views then later + 1 else later

abbrev pub count_of : List ℕ → PprofBuilder → ℕ
count_of ids b = value_or 0 (lookup ids b.samples)

pub add-AddedFrames :
    (frames : List Frame) (b : PprofBuilder)
    → IsWellFormed b
    → IsWellFormed (add frames b)
      × Extends b (add frames b)
      × ResolveAll (add frames b) (add_frames frames b).1 (map view_of frames)
unfolding add count_sample
add-AddedFrames frames b v =
    let h = add_frames_lem frames b v in
    (
      record {
        strings = h.valid.strings;
        functions = h.valid.functions;
        locations = h.valid.locations;
        function_ids = h.valid.function_ids;
        location_ids = h.valid.location_ids;
      },
      record {
        strings = h.keeps.strings;
        functions = h.keeps.functions;
        locations = h.keeps.locations;
      },
      ResolveAll-Extends
          (record { strings = λ i s e. e; functions = λ i k e. e; locations = λ i k e. e }) h.means,
    )

pub add_all-IsWellFormed :
    (samples : List (List Frame)) (b : PprofBuilder)
    → IsWellFormed b
    → IsWellFormed (add_all samples b) × Extends b (add_all samples b)
unfolding add_all
add_all-IsWellFormed [] b v = (v, Extends-refl b)
add_all-IsWellFormed (frames ∷ samples) b v =
    let (valid, keeps, _) = add-AddedFrames frames b v in
    let (valid', keeps') = add_all-IsWellFormed samples (add frames b) valid in
    (valid', Extends-trans keeps keeps')

count_of-add :
    (frames : List Frame) (ids : List ℕ) (b : PprofBuilder)
    → count_of ids (add frames b)
      ≡ (if eqb (add_frames frames b).1 ids then (count_of ids b + 1) % 2 ^ 64 else count_of ids b)
unfolding add count_sample
count_of-add frames ids b = ground (
  arith,
  samples-add_frames frames b,
  list_beq_iff (add_frames frames b).1 ids,
  lookup-upsert (add_frames frames b).1 ids 0 increment (add_frames frames b).0.samples,
)

-- A list of location numbers that a reader of the profile resolves to the stack.
record IsAdded (frames : List Frame) (c : PprofBuilder) : Type 0 where
  ids : List ℕ
  means : ReadAll c ids (map view_of frames)

-- Stacks have one list of numbers if they look alike, and only then.
same_stack :
    {c : PprofBuilder} {ids others : List ℕ} {views : List View} (shown : List View)
    → IsWellFormed c
    → ResolveAll c others shown
    → ResolveAll c ids views
    → eqb others ids ≡ eqb shown views
same_stack {c} {ids} {others} {views} shown w q r =
    both (eqb others ids) (eqb shown views) (list_beq_iff others ids) (view_list_iff shown views)
      (λ e. ResolveAll-functional (subst (λ t. ResolveAll c t shown) e q) r)
      (λ e. ResolveAll-unique w (subst (λ t. ResolveAll c others t) e q) r)
  where
    view_list_iff : (v w : List View) → (eqb v w ≡ true) ↔ (v ≡ w)
    view_list_iff v w = list_beq_iff v w

    both : {P Q : Type 0} (x y : Bool) → (x ≡ true) ↔ P → (y ≡ true) ↔ Q → (P → Q) → (Q → P) → x ≡ y
    both true true p q f g = refl
    both false false p q f g = refl
    both true false p q f g = sym (q.1 (f (p.0 refl)))
    both false true p q f g = p.1 (g (q.0 refl))

tally_lt : (x : Bool) (n : ℕ) → n < 2 ^ 64 → (if x then (n + 1) % 2 ^ 64 else n) < 2 ^ 64
tally_lt true n h = omega arith
tally_lt false n h = h

tally :
    {x y : Bool} (n m later total : ℕ)
    → x ≡ y
    → m ≡ (if x then (n + 1) % 2 ^ 64 else n)
    → total ≡ (m + later) % 2 ^ 64
    → total ≡ (n + (if y then later + 1 else later)) % 2 ^ 64
tally n m later total same step rest = ground (arith, same, step, rest)

count_of-add_all :
    {ids : List ℕ} {views : List View} (samples : List (List Frame)) (b : PprofBuilder)
    → IsWellFormed b
    → count_of ids b < 2 ^ 64
    → ResolveAll (add_all samples b) ids views
    → count_of ids (add_all samples b) ≡ (count_of ids b + samples_with views samples) % 2 ^ 64
unfolding add_all samples_with
count_of-add_all [] b v small r = omega arith
count_of-add_all {ids} {views} (frames ∷ samples) b v small r =
    let (valid, keeps, means) = add-AddedFrames frames b v in
    let (valid', keeps') = add_all-IsWellFormed samples (add frames b) valid in
    let same = same_stack (map view_of frames) valid' (ResolveAll-Extends keeps' means) r in
    let step = count_of-add frames ids b in
    let less = tally_lt (eqb (add_frames frames b).1 ids) (count_of ids b) small in
    tally _ _ (samples_with views samples) _ same step
      (count_of-add_all samples (add frames b) valid (subst (λ n. n < 2 ^ 64) (sym step) less) r)

add_all-IsAdded :
    (samples : List (List Frame)) (b : PprofBuilder)
    → IsWellFormed b
    → All (λ frames. IsAdded frames (add_all samples b)) samples
unfolding add_all
add_all-IsAdded [] b v = tt
add_all-IsAdded (frames ∷ samples) b v =
    let (valid, keeps, means) = add-AddedFrames frames b v in
    let (valid', keeps') = add_all-IsWellFormed samples (add frames b) valid in
    (
      record { ids = _; means = ResolveAll-ReadAll valid' (ResolveAll-Extends keeps' means) },
      add_all-IsAdded samples (add frames b) valid,
    )

empty_tables-IsWellFormed : (now : ℕ) → IsWellFormed (empty_tables now)
unfolding lookup get_from
empty_tables-IsWellFormed now = record {
  strings = λ k i. (λ e. ground (arith, e), λ e. ground (arith, e));
  functions = λ k i. (λ e. ground (arith, e), λ e. ground (arith, e));
  locations = λ k i. (λ e. ground (arith, e), λ e. ground (arith, e));
  function_ids = λ i f e. ground (arith, e);
  location_ids = λ i l e. ground (arith, e);
}

pub new-IsWellFormed : (now : ℕ) → IsWellFormed (new now)
unfolding new
new-IsWellFormed now = (intern-Interned [] _ (empty_tables-IsWellFormed now)).valid

count_of-new : (now : ℕ) (ids : List ℕ) → count_of ids (new now) ≡ 0
unfolding new intern intern_found lookup
count_of-new now ids = refl

-- In a window, if a list of location numbers leads a reader of the profile, who follows the ids of
-- locations and functions, to a stack, the count under it is the number of samples that show that
-- stack, modulo 2^64.
pub profile_counts :
    (now : ℕ) (samples : List (List Frame)) (ids : List ℕ) (views : List View)
    → ReadAll (add_all samples (new now)) ids views
    → count_of ids (add_all samples (new now)) ≡ samples_with views samples % 2 ^ 64
profile_counts now samples ids views r =
    subst (λ n. count_of ids (add_all samples (new now)) ≡ n % 2 ^ 64)
      (ground (arith, count_of-new now ids))
      (count_of-add_all samples (new now) (new-IsWellFormed now)
        (omega (arith, count_of-new now ids))
        (ReadAll-ResolveAll (add_all-IsWellFormed samples (new now) (new-IsWellFormed now)).0 r))

-- The same, with the number of samples that show the stack as its count.
pub record IsCounted (samples : List (List Frame)) (frames : List Frame) (c : PprofBuilder)
    : Type 0 where
  pub ids : List ℕ
  pub means : ReadAll c ids (map view_of frames)
  pub count : count_of ids c ≡ samples_with (map view_of frames) samples % 2 ^ 64

-- In a window, every sampled stack has a list of location numbers that leads a reader of the profile
-- back to the names, files and lines of its frames: each number is the id of exactly one location,
-- whose function id is that of exactly one function, no id being zero, and the location holds the
-- line, and the places that the function holds are those of the name and the file. The count under
-- the list is the number of samples that show the stack, modulo 2^64.
pub profile_shows :
    (now : ℕ) (samples : List (List Frame))
    → All (λ frames. IsCounted samples frames (add_all samples (new now))) samples
profile_shows now samples =
    counted samples (add_all-IsAdded samples (new now) (new-IsWellFormed now))
  where
    counted :
        (some_samples : List (List Frame))
        → All (λ frames. IsAdded frames (add_all samples (new now))) some_samples
        → All (λ frames. IsCounted samples frames (add_all samples (new now))) some_samples
    counted [] h = tt
    counted (frames ∷ later) (h, hs) = (
      record {
        ids = h.ids;
        means = h.means;
        count = profile_counts now samples h.ids (map view_of frames) h.means;
      },
      counted later hs,
    )
