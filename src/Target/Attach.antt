-- ===== src/Target/Attach.antt =====
-- src/target.rs, `Target::attach`: what a sampling needs to know of a process.
--
-- The machine is a parameter: the maps of a process, the file behind a path with what the crate
-- `object` parses of it, the tasks, the kernel, the memory, and the two environment variables that
-- `offsets::pick` reads.
pub mod Origins
pub mod Laws
use php_fast_profile.Base.{
  ℕ, ◌+◌, List, [], ◌++◌, Option, none, some, Bool, true, false, ◌&&◌, ◌||◌, ◌==◌, if◌then◌else◌,
}
use php_fast_profile.Base.Act.{
  Outcome, ok, err, Error, raise, open_failed, io_failed, no_principal, no_path, no_version,
  bad_version, pure, lift, ◌>>=◌,
}
use php_fast_profile.Base.Text.{Text, codes, to_string}
use php_fast_profile.Offsets.{VersionLayout, pick}
use php_fast_profile.Proc.{MapEntry, parse_maps, principal_binary}
use php_fast_profile.Remote.{Remote, Io}
use php_fast_profile.Symbols.{
  Arch, ElfFile, ResolveOptions, Symbols, Zts, resolve, find_php_version_in_elf,
}
use php_fast_profile.Target.Capture.{Target}
use php_fast_profile.Target.Prologue.{read_php_version}
use php_fast_profile.Tls.{resolve_zts_executor_globals}
use php_fast_profile.Tls.Task.{Kernel, Listing}

pub record AttachOptions : Type 0 where
  pub executor_globals : Option ℕ
  pub php_version_addr : Option ℕ
  pub php_version_string : Option Text

pub record Machine : Type 0 where
  pub host : Arch
  -- the content of /proc/PID/maps, and the names in /proc/PID/task
  pub maps : ℕ → Option Text
  pub tasks : ℕ → Listing
  -- `none` if the file cannot be opened, `some none` if it is opened and cannot be mapped,
  -- `some (some none)` if it is no ELF file
  pub elf : Text → Option (Option (Option ElfFile))
  pub kernel : Kernel
  pub memory : ℕ → Remote
  pub eg_override : Option Text
  pub symbol_table_override : Option Text

pub read_maps : Machine → ℕ → Outcome (List MapEntry)
read_maps m pid = elim (m.maps pid) [ none ↦ err open_failed | some raw ↦ parse_maps raw ]

found_binary : Option MapEntry → Outcome MapEntry
found_binary none = err no_principal
found_binary (some entry) = ok entry

path_of : Option Text → Outcome Text
path_of none = err no_path
path_of (some path) = ok path

-- The path as the profiler sees it, or else through the target's root.
abbrev pub root_path : ℕ → Text → Text
root_path pid path = codes "/proc/" ++ (to_string pid ++ (codes "/root" ++ path))

-- `Mmap::map` of the file that was opened.
pub mapped : Option (Option ElfFile) → Outcome (Option ElfFile)
mapped none = err io_failed
mapped (some file) = ok file

-- Only a file that cannot be opened is looked for in the target's root.
pub or_root :
    Option (Option (Option ElfFile)) → Option (Option (Option ElfFile)) → Outcome (Option ElfFile)
or_root (some file) fallback = mapped file
or_root none (some file) = mapped file
or_root none none = err open_failed

is_given : {A : Type 0} → Option A → Bool
is_given none = false
is_given (some a) = true

unfoldable pub resolve_options : AttachOptions → ℕ → ResolveOptions
unfolding is_given
resolve_options opts base = record {
  load_base = base;
  executor_globals_override = opts.executor_globals;
  php_version_override = opts.php_version_addr;
  allow_stripped = is_given opts.executor_globals || is_given opts.php_version_string;
}

-- The walk through the thread-local storage, if the symbols left the globals open.
unfoldable pub locate_globals : Machine → ℕ → Option Zts → ℕ → Io ℕ
locate_globals m pid none eg = pure eg
locate_globals m pid (some zts) eg =
    if eg == 0
    then resolve_zts_executor_globals m.host m.kernel (m.tasks pid) (m.memory pid) pid
        zts.tcb_offset_fn zts.eg_offset_var
    else pure eg

-- The version: the user's, or a literal of the binary, or what the accessor returns.
unfoldable pub detect_version : Machine → ℕ → Option Text → Option Text → Option ℕ → Io Text
detect_version m pid (some s) literal addr = pure s
detect_version m pid none (some version) addr = pure version
detect_version m pid none none (some addr) = read_php_version m.host (m.memory pid) addr
detect_version m pid none none none = raise no_version

supported : Option VersionLayout → Outcome VersionLayout
supported none = err bad_version
supported (some layout) = ok layout

-- The steps of `Target::attach`, each followed by the rest.
module _ (m : Machine) (pid : ℕ) (opts : AttachOptions) where
  unfoldable pub from_version : Text → Symbols → ℕ → Text → Io Target
  unfolding supported
  from_version path symbols eg version = do
    layout ← lift (supported (pick m.eg_override m.symbol_table_override version))
    pure (record {
      pid = pid;
      remote = m.memory pid;
      symbols = record symbols { executor_globals = eg };
      php_version = version;
      layout = layout;
      exe = path;
    })

  unfoldable pub from_globals : Text → Option Text → Symbols → ℕ → Io Target
  from_globals path literal symbols eg =
      detect_version m pid opts.php_version_string literal symbols.php_version
      >>= from_version path symbols eg

  unfoldable pub from_symbols : Text → Option ElfFile → Symbols → Io Target
  from_symbols path elf symbols =
      locate_globals m pid symbols.zts symbols.executor_globals
      >>= from_globals path (find_php_version_in_elf elf) symbols

  unfoldable pub from_elf : MapEntry → Text → Option ElfFile → Io Target
  from_elf principal path elf =
      lift (resolve m.host elf (resolve_options opts principal.start)) >>= from_symbols path elf

  unfoldable pub from_path : MapEntry → Text → Io Target
  unfolding or_root mapped
  from_path principal path =
      lift (or_root (m.elf path) (m.elf (root_path pid path))) >>= from_elf principal path

  unfoldable pub from_principal : MapEntry → Io Target
  unfolding path_of
  from_principal principal = lift (path_of principal.path) >>= from_path principal

  unfoldable pub from_maps : List MapEntry → Io Target
  unfolding found_binary
  from_maps maps = lift (found_binary (principal_binary maps)) >>= from_principal

  unfoldable pub attach : Io Target
  unfolding read_maps
  attach = lift (read_maps m pid) >>= from_maps
