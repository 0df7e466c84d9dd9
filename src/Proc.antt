-- ===== src/Proc.antt =====
-- src/proc.rs: the memory maps of a process, and the binary that it runs.
--
-- The content of /proc/PID/maps is an argument.
pub mod Laws
pub mod Lines
use php_fast_profile.Base.{
  ℕ, ◌^◌, List, [], ◌∷◌, Option, none, some, Bool, true, false, not, ◌&&◌, ltb, if◌then◌else◌, eqb,
  list_eq, nat_eq,
}
use php_fast_profile.Base.Act.{Outcome, ok, err, bind, bad_maps, bad_range, bad_number}
use php_fast_profile.Base.Text.{
  Text, codes, starts_with, ends_with, contains_char, split_once, splitn, is_whitespace, trim,
  lines, from_str_radix,
}

pub record MapEntry : Type 0 where
  pub start : ℕ
  pub perms : Text
  pub path : Option Text

unfoldable pub nonempty : List Text → List Text
nonempty [] = []
nonempty ([] ∷ parts) = nonempty parts
nonempty ((c ∷ s) ∷ parts) = (c ∷ s) ∷ nonempty parts

-- The sixth of the parts, trimmed, if anything of it is left.
some_text : Text → Option Text
some_text [] = none
some_text (c ∷ s) = some (c ∷ s)

unfoldable pub path_of : List Text → Option Text
unfolding some_text
path_of (offset ∷ dev ∷ inode ∷ path ∷ _) = some_text (trim path)
path_of _ = none

parse_start : Option (Text × Text) → Outcome ℕ
parse_start none = err bad_range
parse_start (some (start, _)) = elim (from_str_radix 16 (2 ^ 64) start) [
  | none ↦ err bad_number
  | some n ↦ ok n
]

unfoldable pub parse_parts : List Text → Outcome MapEntry
unfolding parse_start
parse_parts (range ∷ perms ∷ rest) =
    bind (parse_start (split_once range (codes "-")))
      λ start. ok (record { start = start; perms = perms; path = path_of rest })
parse_parts _ = err bad_maps

-- One round of `parse_maps`.
unfoldable pub parse_line : Text → Outcome MapEntry
parse_line line = parse_parts (nonempty (splitn 6 is_whitespace line))

unfoldable pub parse_lines : List Text → Outcome (List MapEntry)
parse_lines [] = ok []
parse_lines (l ∷ ls) =
    bind (parse_line l) λ entry. bind (parse_lines ls) λ entries. ok (entry ∷ entries)

unfoldable pub parse_maps : Text → Outcome (List MapEntry)
parse_maps raw = parse_lines (lines raw)

is_empty : Text → Bool
is_empty [] = true
is_empty (c ∷ s) = false

is_on_disk : Option Text → Bool
unfolding is_empty
is_on_disk none = false
is_on_disk (some p) =
    not (starts_with p (codes "["))
    && not (is_empty p)
    && not (starts_with p (codes "/dev/"))
    && not (ends_with p (codes "(deleted)"))

-- A private executable mapping of a file on disk.
unfoldable pub is_text : MapEntry → Bool
unfolding is_on_disk
is_text m = contains_char m.perms b'x' && contains_char m.perms b'p' && is_on_disk m.path

unfoldable pub first_text : List MapEntry → Option MapEntry
first_text [] = none
first_text (m ∷ maps) = let later = first_text maps in if is_text m then some m else later

has_path : Text → Option Text → Bool
has_path path none = false
has_path path (some p) = eqb p path

unfoldable pub with_path : Text → List MapEntry → List MapEntry
unfolding has_path
with_path path [] = []
with_path path (m ∷ maps) =
    let later = with_path path maps in if has_path path m.path then m ∷ later else later

-- `min_by_key(|m| m.start)`: the first of the least.
unfoldable pub least_from : MapEntry → List MapEntry → MapEntry
least_from m [] = m
least_from m (n ∷ maps) = least_from (if ltb n.start m.start then n else m) maps

least : List MapEntry → Option MapEntry
least [] = none
least (m ∷ maps) = some (least_from m maps)

load_of : Option Text → List MapEntry → Option MapEntry
unfolding least
load_of none maps = none
load_of (some path) maps = least (with_path path maps)

principal_of : Option MapEntry → List MapEntry → Option MapEntry
unfolding load_of
principal_of none maps = none
principal_of (some m) maps = load_of m.path maps

unfoldable pub principal_binary : List MapEntry → Option MapEntry
unfolding principal_of
principal_binary maps = principal_of (first_text maps) maps
