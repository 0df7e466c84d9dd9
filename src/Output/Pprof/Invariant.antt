-- ===== src/Output/Pprof/Invariant.antt =====
-- The tables of a `PprofBuilder`: what is interned keeps its number, and means what it should.
use php_fast_profile.Base.{
  ℕ, ◌+◌, List, [], ◌∷◌, ◌++◌, map, Option, none, some, length, length-map, ◌≡◌, refl, ap, arith,
  nat_eq, list_eq, pair_eq,
}
use php_fast_profile.Base.Map.{HashMap, lookup, insert}
use php_fast_profile.Base.Text.{Text}
use php_fast_profile.Output.Pprof.{
  Function, Location, PprofBuilder, intern_found, intern, function_found, function_id,
  location_found, location_id,
}
use php_fast_profile.Output.Pprof.Index.{
  get_from, get_from-push, get_from_keep, get_from_new, IsIndex, IsIndex-push,
}

abbrev pub key_of_function : Function → ℕ × ℕ
key_of_function f = (f.name, f.filename)

abbrev pub key_of_location : Location → ℕ × ℕ
key_of_location l = (l.function_id, l.line)

abbrev pub function_keys : PprofBuilder → List (ℕ × ℕ)
function_keys b = map key_of_function b.functions

abbrev pub location_keys : PprofBuilder → List (ℕ × ℕ)
location_keys b = map key_of_location b.locations

-- Each index is the inverse of its table, and an entry's `id` is its number, from 1.
pub record IsWellFormed (b : PprofBuilder) : Type 0 where
  pub strings : IsIndex 0 b.strings b.string_idx
  pub functions : IsIndex 1 (function_keys b) b.function_key
  pub locations : IsIndex 1 (location_keys b) b.location_key
  pub function_ids : (i : ℕ) (f : Function) → get_from 1 b.functions i ≡ some f → f.id ≡ i
  pub location_ids : (i : ℕ) (l : Location) → get_from 1 b.locations i ≡ some l → l.id ≡ i

-- Nothing that has a number loses it.
pub record Extends (b c : PprofBuilder) : Type 0 where
  pub strings :
      (i : ℕ) (s : Text) → get_from 0 b.strings i ≡ some s → get_from 0 c.strings i ≡ some s
  pub functions :
      (i : ℕ) (k : ℕ × ℕ)
      → get_from 1 (function_keys b) i ≡ some k
      → get_from 1 (function_keys c) i ≡ some k
  pub locations :
      (i : ℕ) (k : ℕ × ℕ)
      → get_from 1 (location_keys b) i ≡ some k
      → get_from 1 (location_keys c) i ≡ some k

pub Extends-refl : (b : PprofBuilder) → Extends b b
Extends-refl b = record { strings = λ i s h. h; functions = λ i k h. h; locations = λ i k h. h }

pub Extends-trans : {b c d : PprofBuilder} → Extends b c → Extends c d → Extends b d
Extends-trans x y = record {
  strings = λ i s h. y.strings i s (x.strings i s h);
  functions = λ i k h. y.functions i k (x.functions i k h);
  locations = λ i k h. y.locations i k (x.locations i k h);
}

-- What an operation that returns a number makes sure of.
pub record Interned (b : PprofBuilder) (r : PprofBuilder × ℕ) (Means : PprofBuilder → ℕ → Type 0)
    : Type 0 where
  pub valid : IsWellFormed r.0
  pub keeps : Extends b r.0
  pub means : Means r.0 r.1

abbrev pub IsString : Text → PprofBuilder → ℕ → Type 0
IsString s b i = get_from 0 b.strings i ≡ some s

abbrev pub IsFunction : ℕ → ℕ → PprofBuilder → ℕ → Type 0
IsFunction name filename b i = get_from 1 (function_keys b) i ≡ some (name, filename)

abbrev pub IsLocation : ℕ → ℕ → PprofBuilder → ℕ → Type 0
IsLocation fid line b i = get_from 1 (location_keys b) i ≡ some (fid, line)

intern_found-Interned :
    (s : Text) (o : Option ℕ) (b : PprofBuilder)
    → lookup s b.string_idx ≡ o
    → IsWellFormed b
    → Interned b (intern_found s o b) (IsString s)
unfolding intern_found
intern_found-Interned s (some i) b e v = record {
  valid = v;
  keeps = Extends-refl b;
  means = (v.strings s i).0 e;
}
intern_found-Interned s none b e v = record {
  valid = record {
    strings = IsIndex-push 0 (length b.strings) b.strings b.string_idx s (omega arith) v.strings e;
    functions = v.functions;
    locations = v.locations;
    function_ids = v.function_ids;
    location_ids = v.location_ids;
  };
  keeps = record {
    strings = λ i t h. get_from_keep 0 b.strings s t i h;
    functions = λ i k h. h;
    locations = λ i k h. h;
  };
  means = get_from_new 0 b.strings s (length b.strings) (omega arith);
}

pub intern-Interned :
    (s : Text) (b : PprofBuilder) → IsWellFormed b → Interned b (intern s b) (IsString s)
unfolding intern
intern-Interned s b v = intern_found-Interned s (lookup s b.string_idx) b refl v

-- The numbers of a table of records stay right when the next record carries the next number.
ids_push :
    {A : Type 0} (id : A → ℕ) (xs : List A) (x : A)
    → id x ≡ length xs + 1
    → ((i : ℕ) (y : A) → get_from 1 xs i ≡ some y → id y ≡ i)
    → (i : ℕ) (y : A) → get_from 1 (xs ++ (x ∷ [])) i ≡ some y
    → id y ≡ i
ids_push id xs x e h i y g = ground (arith, get_from-push 1 xs x i, h i y)

-- A table of keys grows with the table of its records.
keys_push :
    {A : Type 0} (key : A → ℕ × ℕ) (xs : List A) (x : A)
    → map key (xs ++ (x ∷ [])) ≡ map key xs ++ (key x ∷ [])
keys_push key [] x = refl
keys_push key (y ∷ xs) x = ap (λ t. key y ∷ t) (keys_push key xs x)

IsIndex-push_mapped :
    {A : Type 0} (key : A → ℕ × ℕ) (xs : List A) (x : A) (n : ℕ) (index : HashMap (ℕ × ℕ) ℕ)
    → n ≡ length xs + 1
    → IsIndex 1 (map key xs) index
    → lookup (key x) index ≡ none
    → IsIndex 1 (map key (xs ++ (x ∷ []))) (insert (key x) n index)
IsIndex-push_mapped key xs x n index e h fresh =
    rw (keys_push key xs x)
      (IsIndex-push 1 n (map key xs) index (key x) (omega (arith, length-map key xs)) h fresh)

key_keep :
    {A : Type 0} (key : A → ℕ × ℕ) (xs : List A) (x : A) (i : ℕ) (k : ℕ × ℕ)
    → get_from 1 (map key xs) i ≡ some k
    → get_from 1 (map key (xs ++ (x ∷ []))) i ≡ some k
key_keep key xs x i k h = rw (keys_push key xs x) (get_from_keep 1 (map key xs) (key x) k i h)

key_new :
    {A : Type 0} (key : A → ℕ × ℕ) (xs : List A) (x : A)
    → get_from 1 (map key (xs ++ (x ∷ []))) (length xs + 1) ≡ some (key x)
key_new key xs x =
    rw (keys_push key xs x)
      (get_from_new 1 (map key xs) (key x) (length xs + 1) (omega (arith, length-map key xs)))

module _ (name filename : ℕ) where
  function_found-Interned :
      (o : Option ℕ) (b : PprofBuilder)
      → lookup (name, filename) b.function_key ≡ o
      → IsWellFormed b
      → Interned b (function_found name filename o b) (IsFunction name filename)
  unfolding function_found
  function_found-Interned (some i) b e v = record {
    valid = v;
    keeps = Extends-refl b;
    means = (v.functions (name, filename) i).0 e;
  }
  function_found-Interned none b e v =
      let n = length b.functions + 1 in
      let f : Function = record {
        id = n;
        name = name;
        system_name = name;
        filename = filename;
        start_line = 0;
      } in
      record {
        valid = record {
          strings = v.strings;
          functions =
              IsIndex-push_mapped key_of_function b.functions f n b.function_key refl v.functions e;
          locations = v.locations;
          function_ids = ids_push (λ x. x.id) b.functions f refl v.function_ids;
          location_ids = v.location_ids;
        };
        keeps = record {
          strings = λ i s h. h;
          functions = key_keep key_of_function b.functions f;
          locations = λ i k h. h;
        };
        means = key_new key_of_function b.functions f;
      }

  pub function_id-Interned :
      (b : PprofBuilder)
      → IsWellFormed b
      → Interned b (function_id name filename b) (IsFunction name filename)
  unfolding function_id
  function_id-Interned b v = function_found-Interned _ b refl v

module _ (fid line : ℕ) where
  location_found-Interned :
      (o : Option ℕ) (b : PprofBuilder)
      → lookup (fid, line) b.location_key ≡ o
      → IsWellFormed b
      → Interned b (location_found fid line o b) (IsLocation fid line)
  unfolding location_found
  location_found-Interned (some i) b e v = record {
    valid = v;
    keeps = Extends-refl b;
    means = (v.locations (fid, line) i).0 e;
  }
  location_found-Interned none b e v =
      let n = length b.locations + 1 in
      let l : Location = record { id = n; function_id = fid; line = line } in
      record {
        valid = record {
          strings = v.strings;
          functions = v.functions;
          locations =
              IsIndex-push_mapped key_of_location b.locations l n b.location_key refl v.locations e;
          function_ids = v.function_ids;
          location_ids = ids_push (λ x. x.id) b.locations l refl v.location_ids;
        };
        keeps = record {
          strings = λ i s h. h;
          functions = λ i k h. h;
          locations = key_keep key_of_location b.locations l;
        };
        means = key_new key_of_location b.locations l;
      }

  pub location_id-Interned :
      (b : PprofBuilder)
      → IsWellFormed b
      → Interned b (location_id fid line b) (IsLocation fid line)
  unfolding location_id
  location_id-Interned b v = location_found-Interned _ b refl v
