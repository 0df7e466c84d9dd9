-- ===== src/Tests/Threads.antt =====
-- A target that is attached to, and the tasks of a thread-safe one, at concrete inputs.
use php_fast_profile.Base.{
  ◌+◌, ◌*◌, ◌≤◌, ◌^◌, List, [], ◌∷◌, Option, none, some, true, ◌≡◌, refl, arith,
}
use php_fast_profile.Base.Act.{ok}
use php_fast_profile.Base.Bytes.{to_le_bytes, add64, sign_extend32}
use php_fast_profile.Base.Text.{
  Text, codes, lines, split, split_once, splitn, from_str_radix, parse_i32,
}
use php_fast_profile.Base.Map.{lookup, insert}
use php_fast_profile.Remote.{Remote}
use php_fast_profile.Offsets.{pick, base_layout}
use php_fast_profile.Proc.{
  parse_maps, parse_lines, parse_line, parse_parts, nonempty, path_of, principal_binary, first_text,
  is_text, with_path, least_from,
}
use php_fast_profile.Symbols.{
  x86_64, aarch64, ElfFile, resolve, resolve_addresses, resolve_zts, resolve_executor_globals,
  resolve_php_version, scan_symbols,
}
use php_fast_profile.Target.Capture.{capture_stack}
use php_fast_profile.Target.Capture.Bounds.{IsCapture}
use php_fast_profile.Target.Attach.{
  Machine, AttachOptions, attach, from_maps, from_principal, from_path, from_elf, from_symbols,
  from_globals, from_version, locate_globals, detect_version, resolve_options,
}
use php_fast_profile.Target.Attach.Laws.{capture_stack-attach}
use php_fast_profile.Tls.{resolve_zts_executor_globals}
use php_fast_profile.Tls.Offset.{decode_tcb_offset_bytes}
use php_fast_profile.Tls.Offset.Laws.{
  mov_accessor, decode-mov_accessor, movz_accessor, decode-movz_accessor,
}
use php_fast_profile.Tls.Task.{Kernel, stopped, pick_task, pick_loop, tids}
use php_fast_profile.Tls.Task.Laws.{IsPicked, pick_task_lem}
use php_fast_profile.Tls.Laws.{HoldsCache, resolve_zts_lem}
use php_fast_profile.Zend.Walker.{new_walker}
use php_fast_profile.Tests.Memory.{zeros, remote, target, read_in}

abbrev pub file : ElfFile
file = record {
  e_type = 2;
  e_machine = 62;
  symbols = record { name = some (codes "executor_globals"); address = 1000 } ∷ [];
  dynamic_symbols = [];
  sections = [];
}

abbrev pub kernel : Kernel
kernel = record {
  attaches = λ tid. true;
  waitpid = λ tid k. stopped;
  now = λ k. k * 2_000_000;
  fs_base = λ tid. some 20480;
  arm_tls = λ tid. none;
}

-- The target of Tests/Memory.antt as the machine shows it.
abbrev pub machine : Machine
machine = record {
  host = x86_64;
  maps = λ pid. some (codes "40-80 r-xp 0 0 0 /usr/bin/php");
  tasks = λ pid. none;
  elf = λ path. some (some (some file));
  kernel = kernel;
  memory = λ pid. remote;
  eg_override = none;
  symbol_table_override = none;
}

abbrev pub options : AttachOptions
options = record {
  executor_globals = none;
  php_version_addr = none;
  php_version_string = some (codes "8.3.1");
}

pub attached : (attach machine 1 options 0).0 ≡ ok target
unfolding attach from_maps from_principal from_path from_elf from_symbols from_globals from_version
    locate_globals detect_version resolve_options lines split splitn split_once from_str_radix
    parse_maps parse_lines parse_line parse_parts nonempty path_of principal_binary first_text
    is_text with_path least_from resolve resolve_addresses resolve_zts resolve_executor_globals
    resolve_php_version scan_symbols lookup insert pick base_layout
attached = refl

capture_stack-attach_example :
    IsCapture 5 (capture_stack target 5 new_walker).0
    × ((capture_stack target 5 new_walker).1.calls ≤ 0 + (1 + 10 * 5))
capture_stack-attach_example = capture_stack-attach machine 1 options 0 5 target attached

abbrev entries : List (Option Text)
entries = some (codes "1") ∷ none ∷ some (codes "2") ∷ []

pick_task_lem_example : IsPicked 1 (tids entries) (pick_task 1 (some entries))
pick_task_lem_example = pick_task_lem 1 entries

decode-mov_accessor_example :
    decode_tcb_offset_bytes x86_64 (mov_accessor true 4294967288 []) ≡ ok (sign_extend32 4294967288)
decode-mov_accessor_example = decode-mov_accessor true 4294967288 [] (omega arith)

decode-movz_accessor_example :
    decode_tcb_offset_bytes aarch64 (movz_accessor true 24 1 []) ≡ ok (24 + 1 * 2 ^ 16)
decode-movz_accessor_example = decode-movz_accessor true 24 1 [] (omega arith) (omega arith)

-- A thread-safe target, with its accessor at 8192 and its thread pointer 20480.
abbrev zts_remote : Remote
zts_remote = record {
  readv = λ t a n.
      read_in
        ((8192, mov_accessor true 16 (zeros 12))
          ∷ (20496, to_le_bytes 8 24576)
          ∷ (28672, to_le_bytes 8 48)
          ∷ [])
        a n;
}

holds_cache : HoldsCache kernel zts_remote 2 8192 28672 20480 24576 48
unfolding to_le_bytes
holds_cache = record {
  landing_pad = true;
  imm = 16;
  rest = zeros 12;
  imm_fits = omega arith;
  code_size = refl;
  accessor = λ t. refl;
  attaches = refl;
  stops = refl;
  register = refl;
  slot = λ t. refl;
  cache_fits = omega arith;
  cache_made = λ e. omega arith;
  offset = λ t. refl;
  offset_fits = omega arith;
}

second : pick_task 1 (some entries) ≡ ok 2
unfolding pick_task pick_loop tids parse_i32 from_str_radix
second = refl

resolve_zts_lem_example :
    (resolve_zts_executor_globals x86_64 kernel (some entries) zts_remote 1 8192 28672 0).0
    ≡ ok (add64 24576 48)
resolve_zts_lem_example =
    resolve_zts_lem kernel zts_remote 1 2 8192 28672 20480 24576 48 0 entries holds_cache second
