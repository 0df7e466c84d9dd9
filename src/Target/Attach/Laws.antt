-- ===== src/Target/Attach/Laws.antt =====
-- What an attach that succeeds has found out, and that a sampling of its target is safe.
use php_fast_profile.Base.{ℕ, ◌+◌, ◌*◌, ◌≤◌, List, Option, none, some, true, ◌≡◌, refl, arith}
use php_fast_profile.Base.Act.{ok, lift}
use php_fast_profile.Base.Ensures.{Ensures, Ensures-pure, Ensures-bind}
use php_fast_profile.Base.Text.{Text, starts_with}
use mathlib.Core.Path.{subst}
use php_fast_profile.Offsets.{VersionLayout, pick}
use php_fast_profile.Offsets.Laws.{IsInBuffer, pick_sound}
use php_fast_profile.Proc.{MapEntry}
use php_fast_profile.Proc.Laws.{IsPrincipal, principal_binary_lem}
use php_fast_profile.Symbols.{
  Arch, ElfFile, ResolveOptions, Symbols, resolve, find_php_version_in_elf,
}
use php_fast_profile.Symbols.Laws.{IsResolved, resolve_lem}
use php_fast_profile.Zend.Walker.{new_walker}
use php_fast_profile.Target.Capture.{Target, capture_stack}
use php_fast_profile.Target.Capture.Bounds.{IsCapture, capture_stack_bounds}
use php_fast_profile.Target.Attach.{
  Machine, AttachOptions, read_maps, found_binary, path_of, or_root, root_path, resolve_options,
  supported, attach, from_version, from_globals, from_symbols, from_elf, from_path, from_principal,
  from_maps,
}
use php_fast_profile.Target.Attach.Origins.{
  IsDetected, IsLocated, locate_globals-IsLocated, detect_version-IsDetected,
}

pub record IsAttached (m : Machine) (pid : ℕ) (opts : AttachOptions) (t : Target) : Type 0 where
  pub remote : t.remote ≡ m.memory pid
  pub label : starts_with t.php_version t.layout.label ≡ true
  pub buffer : IsInBuffer t.layout
  pub maps : List MapEntry
  pub listed : read_maps m pid ≡ ok maps
  pub principal : MapEntry
  pub file : ElfFile
  pub symbols : Symbols
  pub is_principal : IsPrincipal maps (some principal)
  pub exe : principal.path ≡ some t.exe
  pub opened : or_root (m.elf t.exe) (m.elf (root_path pid t.exe)) ≡ ok (some file)
  pub is_resolved : IsResolved m.host file (resolve_options opts principal.start) symbols
  pub kept : t.symbols ≡ record symbols { executor_globals = t.symbols.executor_globals }
  pub located : IsLocated m pid t.symbols.executor_globals symbols.zts symbols.executor_globals
  pub detected :
      IsDetected m pid t.php_version opts.php_version_string
        (find_php_version_in_elf (some file))
        symbols.php_version

supported_ok : (o : Option VersionLayout) (l : VersionLayout) → supported o ≡ ok l → o ≡ some l
unfolding supported
supported_ok none l e = cc
supported_ok (some k) l e = ground (arith, e)

found_ok : (o : Option MapEntry) (p : MapEntry) → found_binary o ≡ ok p → o ≡ some p
unfolding found_binary
found_ok none p e = cc
found_ok (some k) p e = ground (arith, e)

path_ok : (o : Option Text) (p : Text) → path_of o ≡ ok p → o ≡ some p
unfolding path_of
path_ok none p e = cc
path_ok (some k) p e = ground (arith, e)

-- A file that is no ELF file resolves to nothing.
ElfFile-IsResolved :
    (host : Arch) (elf : Option ElfFile) (opts : ResolveOptions) (s : Symbols)
    → resolve host elf opts ≡ ok s
    → (file : ElfFile) × (elf ≡ some file) × IsResolved host file opts s
unfolding resolve
ElfFile-IsResolved host none opts s e = cc
ElfFile-IsResolved host (some file) opts s e = (file, refl, resolve_lem host file opts s e)

module _ (m : Machine) (pid : ℕ) (opts : AttachOptions) where
  version-Ensures :
      (maps : List MapEntry) (principal : MapEntry) (path : Text) (elf : Option ElfFile)
      (symbols : Symbols) (eg : ℕ) (version : Text)
      → read_maps m pid ≡ ok maps
      → IsPrincipal maps (some principal)
      → principal.path ≡ some path
      → or_root (m.elf path) (m.elf (root_path pid path)) ≡ ok elf
      → resolve m.host elf (resolve_options opts principal.start) ≡ ok symbols
      → IsLocated m pid eg symbols.zts symbols.executor_globals
      → IsDetected m pid version opts.php_version_string
          (find_php_version_in_elf elf)
          symbols.php_version
      → Ensures (IsAttached m pid opts) (from_version m pid opts path symbols eg version)
  unfolding from_version
  version-Ensures maps principal path elf symbols eg version listed h exe opened resolves located
        detected =
      Ensures-bind (lift (supported (pick m.eg_override m.symbol_table_override version))) _
        λ s layout e.
          let (file, is_file, resolved) = ElfFile-IsResolved m.host elf _ symbols resolves in
          let (label, buffer) =
            pick_sound m.eg_override m.symbol_table_override version (supported_ok _ layout e) in
          Ensures-pure _ (record {
            remote = refl;
            label = label;
            buffer = buffer;
            maps = maps;
            listed = listed;
            principal = principal;
            file = file;
            symbols = symbols;
            is_principal = h;
            exe = exe;
            opened =
                subst (λ f. or_root (m.elf path) (m.elf (root_path pid path)) ≡ ok f) is_file
                  opened;
            is_resolved = resolved;
            kept = refl;
            located = located;
            detected =
                subst
                  (λ f.
                    IsDetected m pid version opts.php_version_string (find_php_version_in_elf f)
                      symbols.php_version)
                  is_file detected;
          })

  elf-Ensures :
      (maps : List MapEntry) (principal : MapEntry) (path : Text) (elf : Option ElfFile)
      → read_maps m pid ≡ ok maps
      → IsPrincipal maps (some principal)
      → principal.path ≡ some path
      → or_root (m.elf path) (m.elf (root_path pid path)) ≡ ok elf
      → Ensures (IsAttached m pid opts) (from_elf m pid opts principal path elf)
  unfolding from_elf from_symbols from_globals
  elf-Ensures maps principal path elf listed h exe opened =
      Ensures-bind _ (from_symbols m pid opts path elf) λ s₁ symbols e₁.
        Ensures-bind _ (from_globals m pid opts path (find_php_version_in_elf elf) symbols)
          λ s₂ eg e₂. Ensures-bind _ (from_version m pid opts path symbols eg) λ s₃ version e₃.
            version-Ensures maps principal path elf symbols eg version listed h exe opened e₁
              (locate_globals-IsLocated m pid symbols.zts symbols.executor_globals s₂ eg e₂)
              (detect_version-IsDetected m pid opts.php_version_string (find_php_version_in_elf elf)
                symbols.php_version s₃ version e₃)

  attach-Ensures : Ensures (IsAttached m pid opts) (attach m pid opts)
  unfolding attach from_maps from_principal from_path
  attach-Ensures = Ensures-bind _ (from_maps m pid opts) λ s₁ maps e₁.
      Ensures-bind _ (from_principal m pid opts) λ s₂ principal e₂.
        Ensures-bind _ (from_path m pid opts principal) λ s₃ path e₃.
          Ensures-bind _ (from_elf m pid opts principal path) λ s₄ elf e₄.
            elf-Ensures maps principal path elf e₁
              (subst (λ o. IsPrincipal maps o) (found_ok _ principal e₂)
                (principal_binary_lem maps))
              (path_ok _ path e₃) e₄

pub attach_lem :
    (m : Machine) (pid : ℕ) (opts : AttachOptions) (k : ℕ) (t : Target)
    → (attach m pid opts k).0 ≡ ok t
    → IsAttached m pid opts t
attach_lem m pid opts k t e = (attach-Ensures m pid opts).at k t e

-- Whatever the machine answers, a capture of an attached target, with a new cache, does not panic:
-- it returns at most `max_depth` frames or the error of its first read, by at most
-- `1 + 10 * max_depth` calls.
pub capture_stack-attach :
    (m : Machine) (pid : ℕ) (opts : AttachOptions) (k max_depth : ℕ) (t : Target)
    → (attach m pid opts k).0 ≡ ok t
    → IsCapture max_depth (capture_stack t max_depth new_walker).0
      × ((capture_stack t max_depth new_walker).1.calls ≤ 0 + (1 + 10 * max_depth))
capture_stack-attach m pid opts k max_depth t e =
    let (captured, calls, cache) =
      capture_stack_bounds t max_depth new_walker (attach_lem m pid opts k t e).buffer
        (omega arith) in
    (captured, calls)
