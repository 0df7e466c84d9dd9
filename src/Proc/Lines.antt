-- ===== src/Proc/Lines.antt =====
-- The lines of /proc/PID/maps as the kernel prints them, and what `parse_maps` makes of them.
use php_fast_profile.Base.{
  ℕ, suc, All-append, ◌<◌, ◌^◌, List, [], ◌∷◌, ◌++◌, map, All, Option, none, some, true, false, ◌≡◌,
  refl, ap, ◌∙◌, arith, ◌==◌, ◌≤◌,
}
use mathlib.Core.List.{reverse, reverse-reverse}
use php_fast_profile.Base.Act.{Outcome, ok, err, bind, bad_number}
use php_fast_profile.Base.Text.{
  Text, codes, is_whitespace, split, trim, trim_start, trim_end, splitn, split_once, lines,
}
use php_fast_profile.Base.Text.Laws.{
  splitn-word, split_once-word, IsLine, lines-IsLine, trim_start-append, hex_char, hex_value,
  from_str_radix-hex,
}
use php_fast_profile.Proc.{
  MapEntry, nonempty, some_text, path_of, parse_start, parse_parts, parse_line, parse_lines,
  parse_maps,
}

-- A mapping, as the kernel prints it: the digits of its two addresses, three more words behind the
-- permissions, some padding, and the path, which may be empty.
pub record MapLine : Type 0 where
  pub high : ℕ
  pub digits : List ℕ
  pub end : Text
  pub perms : Text
  pub offset : Text
  pub dev : Text
  pub inode : Text
  pub padding : Text
  pub path : Text

abbrev pub IsWord : Text → Type 0
IsWord [] = ⊥
IsWord (c ∷ s) = All (λ c. is_whitespace c ≡ false) (c ∷ s)

-- The words have no whitespace, and the path has none at its ends.
pub record IsMapLine (l : MapLine) : Type 0 where
  pub digits : All (λ d. d < 16) (l.high ∷ l.digits)
  pub fits : hex_value 0 (l.high ∷ l.digits) < 2 ^ 64
  pub end : All (λ c. is_whitespace c ≡ false) l.end
  pub perms : IsWord l.perms
  pub offset : IsWord l.offset
  pub dev : IsWord l.dev
  pub inode : IsWord l.inode
  pub padding : All (λ c. is_whitespace c ≡ true) l.padding
  pub path :
      (trim_start is_whitespace l.path ≡ l.path)
      × (trim_start is_whitespace (reverse l.path) ≡ reverse l.path)

unfoldable pub range_text : MapLine → Text
range_text l = map hex_char (l.high ∷ l.digits) ++ (45 ∷ l.end)

-- The words and the path with a space behind each word.
unfoldable pub print_line : MapLine → Text
print_line l =
    range_text l
    ++ (32
        ∷ (l.perms
            ++ (32
                ∷ (l.offset
                    ++ (32 ∷ (l.dev ++ (32 ∷ (l.inode ++ (32 ∷ (l.padding ++ l.path))))))))))

unfoldable pub print_maps : List MapLine → Text
print_maps [] = []
print_maps (l ∷ ls) = print_line l ++ (10 ∷ print_maps ls)

pub entry_of : MapLine → MapEntry
entry_of l = record {
  start = hex_value 0 (l.high ∷ l.digits);
  perms = l.perms;
  path = some_text l.path;
}

nonempty-word :
    (w : Text) (parts : List Text) → IsWord w → nonempty (w ∷ parts) ≡ w ∷ nonempty parts
unfolding nonempty
nonempty-word [] parts h = absurd h
nonempty-word (c ∷ w) parts h = refl

word_chars : (w : Text) → IsWord w → All (λ c. is_whitespace c ≡ false) w
word_chars [] h = absurd h
word_chars (c ∷ w) h = h

path_of-tail :
    (a b c tail : Text) → path_of (a ∷ b ∷ c ∷ nonempty (tail ∷ [])) ≡ some_text (trim tail)
unfolding path_of nonempty some_text
path_of-tail a b c [] = refl
path_of-tail a b c (d ∷ tail) = refl

trim-padded :
    (pad path : Text)
    → All (λ c. is_whitespace c ≡ true) pad
    → trim_start is_whitespace path ≡ path
    → trim_start is_whitespace (reverse path) ≡ reverse path
    → trim (pad ++ path) ≡ path
trim-padded pad path h front back =
    ap (λ s. trim_end is_whitespace s) (trim_start-append is_whitespace pad path h ∙ front)
    ∙ (ap reverse back ∙ reverse-reverse path)

printable : (c : ℕ) → 33 ≤ c → c ≤ 126 → is_whitespace c ≡ false
printable c lo hi = ground arith

hex_char-bounds : (d : ℕ) → d < 16 → (46 ≤ hex_char d) × (hex_char d ≤ 126)
hex_char-bounds d h = (ground arith, ground arith)

hex_chars :
    (ds : List ℕ)
    → All (λ d. d < 16) ds
    → All (λ c. is_whitespace c ≡ false) (map hex_char ds)
      × All (λ c. (c == 45) ≡ false) (map hex_char ds)
hex_chars [] h = (tt, tt)
hex_chars (d ∷ ds) (hd, h) =
    let (words, dashes) = hex_chars ds h in
    let (lo, hi) = hex_char-bounds d hd in
    ((printable (hex_char d) (omega (arith, lo)) hi, words), (no_dash (hex_char d) lo, dashes))
  where
    no_dash : (c : ℕ) → 46 ≤ c → (c == 45) ≡ false
    no_dash c lo = ground (arith, lo)

range_text-chars : (l : MapLine) → IsMapLine l → All (λ c. is_whitespace c ≡ false) (range_text l)
unfolding range_text
range_text-chars l h =
    All-append (λ c. is_whitespace c ≡ false) (map hex_char (l.high ∷ l.digits)) (45 ∷ l.end)
      (hex_chars (l.high ∷ l.digits) h.digits).0 (refl, h.end)

range_text-IsWord : (l : MapLine) → IsMapLine l → IsWord (range_text l)
unfolding range_text
range_text-IsWord l h = range_text-chars l h

splitn-print_line :
    (l : MapLine)
    → IsMapLine l
    → splitn 6 is_whitespace (print_line l)
      ≡ range_text l ∷ l.perms ∷ l.offset ∷ l.dev ∷ l.inode ∷ (l.padding ++ l.path) ∷ []
unfolding print_line splitn
splitn-print_line l h = cut 4 (range_text l) _ (range_text-chars l h) (
    cut 3 l.perms _ (word_chars l.perms h.perms) (
      cut 2 l.offset _ (word_chars l.offset h.offset) (
        cut 1 l.dev _ (word_chars l.dev h.dev)
          (cut 0 l.inode _ (word_chars l.inode h.inode) refl))))
  where
    cut :
        (n : ℕ) (w rest : Text) {parts : List Text}
        → All (λ c. is_whitespace c ≡ false) w
        → splitn (suc n) is_whitespace rest ≡ parts
        → splitn (suc (suc n)) is_whitespace (w ++ (32 ∷ rest)) ≡ w ∷ parts
    cut n w rest chars e = splitn-word is_whitespace 32 refl n w rest chars ∙ ap (λ ps. w ∷ ps) e

parts_of :
    (l : MapLine)
    → IsMapLine l
    → nonempty (range_text l ∷ l.perms ∷ l.offset ∷ l.dev ∷ l.inode ∷ (l.padding ++ l.path) ∷ [])
      ≡ range_text l ∷ l.perms ∷ l.offset ∷ l.dev ∷ l.inode ∷ nonempty ((l.padding ++ l.path) ∷ [])
parts_of l h = word (range_text l) _ (range_text-IsWord l h) (
    word l.perms _ h.perms
      (word l.offset _ h.offset (word l.dev _ h.dev (nonempty-word l.inode _ h.inode))))
  where
    word :
        (w : Text) (parts : List Text) {others : List Text}
        → IsWord w
        → nonempty parts ≡ others
        → nonempty (w ∷ parts) ≡ w ∷ others
    word w parts h e = nonempty-word w parts h ∙ ap (λ ps. w ∷ ps) e

parse_start-range :
    (l : MapLine)
    → IsMapLine l
    → parse_start (split_once (range_text l) (codes "-")) ≡ ok (hex_value 0 (l.high ∷ l.digits))
unfolding parse_start range_text
parse_start-range l h =
    ap parse_start (
      split_once-word 45 (map hex_char (l.high ∷ l.digits)) l.end
        (hex_chars (l.high ∷ l.digits) h.digits).1)
    ∙ ap (λ (o : Option ℕ). elim o as (λ o. Outcome ℕ) [ none ↦ err bad_number | some n ↦ ok n ])
        (from_str_radix-hex (2 ^ 64) l.high l.digits h.digits h.fits)

abbrev entry : Text → ℕ → Option Text → MapEntry
entry perms start path = record { start = start; perms = perms; path = path }

parse_line-print_line : (l : MapLine) → IsMapLine l → parse_line (print_line l) ≡ ok (entry_of l)
unfolding parse_line parse_parts entry_of
parse_line-print_line l h =
    let tail = l.padding ++ l.path in
    let path : path_of (l.offset ∷ l.dev ∷ l.inode ∷ nonempty (tail ∷ [])) ≡ some_text l.path =
      path_of-tail l.offset l.dev l.inode tail
      ∙ ap some_text (trim-padded l.padding l.path h.padding h.path.0 h.path.1) in
    ap (λ ps. parse_parts (nonempty ps)) (splitn-print_line l h)
    ∙ (ap parse_parts (parts_of l h)
        ∙ (ap
              (λ (o : Outcome ℕ). bind o λ start.
                ok (
                  entry l.perms start
                    (path_of (l.offset ∷ l.dev ∷ l.inode ∷ nonempty (tail ∷ [])))))
              (parse_start-range l h)
            ∙ ap (λ p. ok (entry l.perms (hex_value 0 (l.high ∷ l.digits)) p)) path))

-- A mapping that is printed on one line.
unfoldable pub IsPrinted : MapLine → Type 0
IsPrinted l = IsMapLine l × IsLine (print_line l)

-- The maps of a process, printed on a line each as the kernel does, in words without whitespace, with
-- a start address below 2^64 and a path without whitespace at its ends, are parsed to one entry for
-- each mapping, in their order: its start address, its permissions, and its path without the padding
-- before it, or none where the path is empty.
pub parse_maps-print_maps :
    (ls : List MapLine) → All IsPrinted ls → parse_maps (print_maps ls) ≡ ok (map entry_of ls)
unfolding parse_maps parse_lines print_maps IsPrinted
parse_maps-print_maps [] h = unfold lines split in refl
parse_maps-print_maps (l ∷ ls) ((well, line), h) =
    ap parse_lines (lines-IsLine (print_line l) (print_maps ls) line)
    ∙ cc (parse_line-print_line l well, parse_maps-print_maps ls h)
