-- ===== src/Output/Pprof/Reads.antt =====
-- What a reader of the profile finds, by the `id` fields of its tables.
use php_fast_profile.Base.{ℕ, List, [], ◌∷◌, map, some, ◌≡◌, sym, ap}
use mathlib.Core.Path.{subst}
use php_fast_profile.Output.Pprof.{PprofBuilder, Function, Location}
use php_fast_profile.Output.Pprof.Index.{get_from}
use php_fast_profile.Output.Pprof.Reader.{
  IsThe, place-IsThe, IsThe-place, get_from-map, get_from-IsImage,
}
use php_fast_profile.Output.Pprof.Invariant.{
  IsWellFormed, IsString, key_of_function, key_of_location,
}
use php_fast_profile.Output.Pprof.Resolve.{View, Resolves, ResolveAll, done, next}

-- A reader takes the one location with the id `lid`, the one function with the id that the location
-- names, and the strings at the places that the function names.
pub record Reads (b : PprofBuilder) (lid : ℕ) (v : View) : Type 0 where
  pub location : Location
  pub function : Function
  pub at_location : IsThe (λ l. l.id) lid b.locations location
  pub at_function : IsThe (λ f. f.id) location.function_id b.functions function
  pub line : location.line ≡ v.line
  pub name : IsString v.name b function.name
  pub file : IsString v.file b function.filename

-- A list of location numbers, frame by frame.
pub data ReadAll (b : PprofBuilder) : List ℕ → List View → Type 0 where
  all_read : ReadAll b [] []
  read_next :
      {i : ℕ} {v : View} {ids : List ℕ} {views : List View}
      → Reads b i v
      → ReadAll b ids views
      → ReadAll b (i ∷ ids) (v ∷ views)

module _ {b : PprofBuilder} (w : IsWellFormed b) where
  Resolves-Reads : {i : ℕ} {v : View} → Resolves b i v → Reads b i v
  Resolves-Reads {i} {v} r =
      let l = get_from-IsImage key_of_location 1 b.locations i _ r.location in
      let f = get_from-IsImage key_of_function 1 b.functions r.fid _ r.function in
      record {
        location = l.entry;
        function = f.entry;
        at_location = place-IsThe (λ l. l.id) b.locations w.location_ids i l.entry l.at;
        at_function =
            subst (λ n. IsThe (λ f. f.id) n b.functions f.entry) (sym (ap (λ k. k.0) l.image))
              (place-IsThe (λ f. f.id) b.functions w.function_ids r.fid f.entry f.at);
        line = ap (λ k. k.1) l.image;
        name = subst (λ n. IsString v.name b n) (sym (ap (λ k. k.0) f.image)) r.name;
        file = subst (λ n. IsString v.file b n) (sym (ap (λ k. k.1) f.image)) r.file;
      }

  Reads-Resolves : {i : ℕ} {v : View} → Reads b i v → Resolves b i v
  Reads-Resolves {i} {v} r =
      let l = IsThe-place (λ l. l.id) b.locations w.location_ids i r.location r.at_location in
      let f = IsThe-place (λ f. f.id) b.functions w.function_ids _ r.function r.at_function in
      record {
        fid = r.location.function_id;
        name_idx = r.function.name;
        file_idx = r.function.filename;
        location =
            subst
              (λ n.
                get_from 1 (map key_of_location b.locations) i ≡ some (r.location.function_id, n))
              r.line (get_from-map key_of_location 1 b.locations i r.location l);
        function = get_from-map key_of_function 1 b.functions _ r.function f;
        name = r.name;
        file = r.file;
      }

  pub ResolveAll-ReadAll :
      {ids : List ℕ} {views : List View} → ResolveAll b ids views → ReadAll b ids views
  ResolveAll-ReadAll done = all_read
  ResolveAll-ReadAll (next r rs) = read_next (Resolves-Reads r) (ResolveAll-ReadAll rs)

  pub ReadAll-ResolveAll :
      {ids : List ℕ} {views : List View} → ReadAll b ids views → ResolveAll b ids views
  ReadAll-ResolveAll all_read = done
  ReadAll-ResolveAll (read_next r rs) = next (Reads-Resolves r) (ReadAll-ResolveAll rs)
