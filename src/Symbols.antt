-- ===== src/Symbols.antt =====
-- src/symbols.rs: the addresses that an attach needs, from the symbol tables of the target's ELF.
--
-- The crate `object`, which parses the ELF, is a parameter: `ElfFile` is what its interface gives.
pub mod Version
pub mod Laws
use php_fast_profile.Base.{
  ℕ, ◌+◌, List, [], ◌∷◌, Option, none, some, Bool, true, false, ◌||◌, leb, ◌==◌, if◌then◌else◌,
  list_eq, nat_eq, any, eqb,
}
use php_fast_profile.Base.Act.{
  Outcome, ok, err, bind, elf_parse, elf_type, elf_machine, zts_symbols, no_executor_globals,
}
use php_fast_profile.Base.Bytes.{add64}
use php_fast_profile.Base.Map.{HashMap, lookup, insert}
use php_fast_profile.Base.Text.{Text, codes}
use php_fast_profile.Symbols.Version.{scan_for_version}

pub record Zts : Type 0 where
  pub tcb_offset_fn : ℕ
  pub eg_offset_var : ℕ

pub record Symbols : Type 0 where
  pub executor_globals : ℕ
  pub php_version : Option ℕ
  pub zts : Option Zts

pub record ResolveOptions : Type 0 where
  pub load_base : ℕ
  pub executor_globals_override : Option ℕ
  pub php_version_override : Option ℕ
  pub allow_stripped : Bool

-- A symbol's name, `none` if it cannot be read, and its address.
pub record Symbol : Type 0 where
  pub name : Option Text
  pub address : ℕ

pub record Section : Type 0 where
  pub name : Option Text
  pub content : Option (List ℕ)

pub record ElfFile : Type 0 where
  pub e_type : ℕ
  pub e_machine : ℕ
  pub symbols : List Symbol
  pub dynamic_symbols : List Symbol
  pub sections : List Section

-- The architecture that the profiler was built for, `cfg!(target_arch)`.
pub data Arch : Type 0 where
  x86_64 aarch64 : Arch

abbrev expected_machine : Arch → ℕ
expected_machine x86_64 = 62
expected_machine aarch64 = 183

unfoldable pub apply_override : ℕ → ℕ → ℕ
apply_override addr load_base = if leb load_base addr then addr else add64 addr load_base

both_addresses : Option ℕ → Option ℕ → ℕ → Outcome (Option Zts)
both_addresses (some tcb) (some eg) bias =
    ok (some (record { tcb_offset_fn = add64 tcb bias; eg_offset_var = add64 eg bias }))
both_addresses _ _ bias = err zts_symbols

unfoldable pub resolve_zts : Option ℕ → Option ℕ → Bool → ℕ → Outcome (Option Zts)
unfolding both_addresses
resolve_zts tcb_offset_fn eg_offset_var is_zts bias =
    if is_zts then both_addresses tcb_offset_fn eg_offset_var bias else ok none

-- The two messages of a missing symbol are one cause.
unfoldable pub resolve_executor_globals : Option ℕ → Option ℕ → Bool → Bool → ℕ → ℕ → Outcome ℕ
unfolding apply_override
resolve_executor_globals (some addr) sym is_zts allow_stripped load_base bias =
    ok (apply_override addr load_base)
resolve_executor_globals none (some rel) is_zts allow_stripped load_base bias = ok (add64 rel bias)
resolve_executor_globals none none true allow_stripped load_base bias = ok 0
resolve_executor_globals none none false allow_stripped load_base bias = err no_executor_globals

unfoldable pub resolve_php_version : Option ℕ → Option ℕ → ℕ → ℕ → Option ℕ
unfolding apply_override
resolve_php_version (some addr) sym load_base bias = some (apply_override addr load_base)
resolve_php_version none (some rel) load_base bias = some (add64 rel bias)
resolve_php_version none none load_base bias = none

-- The slots of the symbols that are looked for.
abbrev pub Wanted : Type 0
Wanted = HashMap Text (Option ℕ)

abbrev pub wanted_names : Wanted
wanted_names =
    (codes "executor_globals", none)
    ∷ (codes "php_version", none)
    ∷ (codes "tsrm_get_ls_cache", none)
    ∷ (codes "tsrm_get_ls_cache_tcb_offset", none)
    ∷ (codes "executor_globals_offset", none)
    ∷ []

fill : Text → ℕ → Option (Option ℕ) → Wanted → Wanted
fill name address (some none) w = insert name (some address) w
fill name address _ w = w

-- The closure `scan`: the first symbol of a wanted name fills its slot.
scan_named : Option Text → ℕ → Wanted → Wanted
unfolding fill
scan_named none address w = w
scan_named (some name) address w = fill name address (lookup name w) w

unfoldable pub scan_symbols : List Symbol → Wanted → Wanted
unfolding scan_named
scan_symbols [] w = w
scan_symbols (s ∷ ss) w = scan_symbols ss (scan_named s.name s.address w)

-- `wanted[name]`, for one of the names.
abbrev slot_of : Option (Option ℕ) → Option ℕ
slot_of none = none
slot_of (some slot) = slot

abbrev pub found : Text → Wanted → Option ℕ
found name w = slot_of (lookup name w)

abbrev is_some : Option ℕ → Bool
is_some none = false
is_some (some a) = true

bias_of : ElfFile → ℕ → Outcome ℕ
bias_of file load_base =
    if file.e_type == 3 then ok load_base else if file.e_type == 2 then ok 0 else err elf_type

check_machine : Arch → ElfFile → Outcome (Unit {0})
check_machine host file = if file.e_machine == expected_machine host then ok tt else err elf_machine

-- The part of `resolve` behind the checks of the header.
unfoldable pub resolve_addresses : Wanted → ℕ → ResolveOptions → Outcome Symbols
resolve_addresses w bias opts =
    let is_zts =
      is_some (found (codes "tsrm_get_ls_cache") w)
      || is_some (found (codes "executor_globals_offset") w) in
    bind
      (resolve_zts (found (codes "tsrm_get_ls_cache_tcb_offset") w)
        (found (codes "executor_globals_offset") w) is_zts bias)
      λ zts.
        bind
          (resolve_executor_globals opts.executor_globals_override
            (found (codes "executor_globals") w) is_zts opts.allow_stripped opts.load_base bias)
          λ eg. ok (record {
            executor_globals = eg;
            php_version =
                resolve_php_version opts.php_version_override (found (codes "php_version") w)
                  opts.load_base bias;
            zts = zts;
          })

-- `resolve`, on what the parser made of the bytes.
unfoldable pub resolve : Arch → Option ElfFile → ResolveOptions → Outcome Symbols
unfolding bias_of check_machine
resolve host none opts = err elf_parse
resolve host (some file) opts = bind (bias_of file opts.load_base) λ bias.
    bind (check_machine host file) λ _.
      resolve_addresses (scan_symbols file.dynamic_symbols (scan_symbols file.symbols wanted_names))
        bias opts

-- `find_php_version_in_elf`: the first read-only section with a version in it.
abbrev is_read_only : Text → Bool
is_read_only name =
    eqb name (codes ".rodata") || eqb name (codes ".rodata1") || eqb name (codes ".data.rel.ro")

abbrev text_or_empty : Option Text → Text
text_or_empty none = []
text_or_empty (some s) = s

scan_section : Option (List ℕ) → Option Text
scan_section none = none
scan_section (some bytes) = scan_for_version bytes

first_version : List Section → Option Text
unfolding scan_section
first_version [] = none
first_version (s ∷ ss) =
    let later = first_version ss in
    if is_read_only (text_or_empty s.name)
    then elim (scan_section s.content) [ none ↦ later | some v ↦ some v ]
    else later

unfoldable pub find_php_version_in_elf : Option ElfFile → Option Text
unfolding first_version
find_php_version_in_elf none = none
find_php_version_in_elf (some file) = first_version file.sections
