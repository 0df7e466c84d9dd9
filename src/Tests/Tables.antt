-- ===== src/Tests/Tables.antt =====
-- Symbol tables of small binaries, and sections with a version in them.
use php_fast_profile.Base.{
  [], ◌∷◌, ◌++◌, none, some, true, false, ◌≡◌, refl, arith, list_eq, nat_eq,
}
use php_fast_profile.Base.Act.{ok}
use php_fast_profile.Base.Map.{lookup, insert}
use php_fast_profile.Base.Text.{codes}
use php_fast_profile.Symbols.{
  Symbols, ResolveOptions, ElfFile, x86_64, resolve, resolve_addresses, resolve_zts,
  resolve_executor_globals, resolve_php_version, scan_symbols, found,
}
use php_fast_profile.Symbols.Version.{looks_like_php_version, scan_for_version}
use php_fast_profile.Symbols.Version.Laws.{
  terminated, IsFirst, scan_for_version_lem, five_bytes-not_found,
}
use php_fast_profile.Symbols.Laws.{
  IsWanted, scanned, first_named, found-scanned, IsResolved, resolve_lem,
}

abbrev file : ElfFile
file = record {
  e_type = 3;
  e_machine = 62;
  symbols = record { name = some (codes "executor_globals"); address = 16 } ∷ [];
  dynamic_symbols =
      record { name = none; address = 1 }
      ∷ record { name = some (codes "executor_globals"); address = 32 }
      ∷ [];
  sections = [];
}

abbrev options : ResolveOptions
options = record {
  load_base = 4096;
  executor_globals_override = none;
  php_version_override = none;
  allow_stripped = false;
}

abbrev resolved : Symbols
resolved = record { executor_globals = 4112; php_version = none; zts = none }

globals-IsWanted : IsWanted (codes "executor_globals")
unfolding lookup
globals-IsWanted = refl

found-scanned_example :
    found (codes "executor_globals") (scanned file)
    ≡ first_named (codes "executor_globals") (file.symbols ++ file.dynamic_symbols)
found-scanned_example = found-scanned file (codes "executor_globals") globals-IsWanted

file-resolved : resolve x86_64 (some file) options ≡ ok resolved
unfolding resolve resolve_addresses resolve_zts resolve_executor_globals resolve_php_version
    scan_symbols lookup insert
file-resolved = refl

resolve_lem_example : IsResolved x86_64 file options resolved
resolve_lem_example = resolve_lem x86_64 file options resolved file-resolved

scan_for_version_lem_example :
    IsFirst
      (codes "PHP" ∷ codes "8.3.14" ∷ [])
      (scan_for_version (terminated (codes "PHP" ∷ codes "8.3.14" ∷ []) (codes "end")))
scan_for_version_lem_example =
    scan_for_version_lem (codes "PHP" ∷ codes "8.3.14" ∷ []) (codes "end")
      (ground arith, (ground arith, tt)) (ground arith)

five_bytes-not_found_example :
    (looks_like_php_version (codes "8.5.6") ≡ true)
    × (scan_for_version (codes "8.5.6" ++ (0 ∷ [])) ≡ none)
five_bytes-not_found_example = five_bytes-not_found b'5' b'6' refl refl
