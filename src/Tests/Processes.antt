-- ===== src/Tests/Processes.antt =====
-- Memory maps and the accessor of the version, at concrete inputs.
use php_fast_profile.Base.Text.Laws.{hex_value}
use php_fast_profile.Proc.Lines.{
  MapLine, IsPrinted, print_maps, print_line, range_text, entry_of, parse_maps-print_maps,
}
use php_fast_profile.Base.{◌+◌, ◌%◌, ◌^◌, map, refl, List, [], ◌∷◌, some, true, ◌≡◌, arith}
use php_fast_profile.Base.Act.{ok}
use php_fast_profile.Base.Bytes.{sign_extend32}
use php_fast_profile.Base.Text.{Text, codes}
use php_fast_profile.Symbols.{x86_64}
use php_fast_profile.Proc.{MapEntry, parse_maps, principal_binary}
use php_fast_profile.Proc.Laws.{IsPrincipal, principal_binary_lem}
use php_fast_profile.Target.Prologue.{decode_php_version_prologue}
use php_fast_profile.Target.Prologue.Laws.{accessor, lea_end, decode-accessor}

abbrev pool : MapEntry
pool = record { start = 10; perms = codes "r-xs"; path = some (codes "/dev/zero (deleted)") }

abbrev header : MapEntry
header = record { start = 20; perms = codes "r--p"; path = some (codes "/usr/bin/php") }

abbrev text : MapEntry
text = record { start = 30; perms = codes "r-xp"; path = some (codes "/usr/bin/php") }

principal_binary_lem_example :
    IsPrincipal (pool ∷ header ∷ text ∷ []) (principal_binary (pool ∷ header ∷ text ∷ []))
principal_binary_lem_example = principal_binary_lem (pool ∷ header ∷ text ∷ [])

decode-accessor_example :
    decode_php_version_prologue x86_64 4096 (accessor true 4294967295 [])
    ≡ ok ((4096 + lea_end true + sign_extend32 4294967295) % 2 ^ 64)
decode-accessor_example = decode-accessor true 4096 4294967295 [] (omega arith)

abbrev map_line : Text → Text → MapLine
map_line padding path = record {
  high = 5;
  digits = 5 ∷ 8 ∷ 0 ∷ [];
  end = codes "5a00";
  perms = codes "r-xp";
  offset = codes "0";
  dev = codes "08:01";
  inode = codes "7";
  padding = padding;
  path = path;
}

php_line-IsPrinted : IsPrinted (map_line (codes "  ") (codes "/usr/bin/php"))
unfolding IsPrinted print_line range_text hex_value
php_line-IsPrinted = (
  record {
    digits = omega arith;
    fits = omega arith;
    end = ground arith;
    perms = ground arith;
    offset = ground arith;
    dev = ground arith;
    inode = ground arith;
    padding = ground arith;
    path = (refl, refl);
  },
  record { no_lf = ground arith; no_cr = refl },
)

blank_line-IsPrinted : IsPrinted (map_line [] [])
unfolding IsPrinted print_line range_text hex_value
blank_line-IsPrinted = (
  record {
    digits = omega arith;
    fits = omega arith;
    end = ground arith;
    perms = ground arith;
    offset = ground arith;
    dev = ground arith;
    inode = ground arith;
    padding = tt;
    path = (refl, refl);
  },
  record { no_lf = ground arith; no_cr = refl },
)

abbrev map_lines : List MapLine
map_lines = map_line (codes "  ") (codes "/usr/bin/php") ∷ map_line [] [] ∷ []

parse_maps-print_maps_example : parse_maps (print_maps map_lines) ≡ ok (map entry_of map_lines)
parse_maps-print_maps_example =
    parse_maps-print_maps map_lines (php_line-IsPrinted, (blank_line-IsPrinted, tt))
