-- ===== src/Base/Text.antt =====
-- The standard library's operations on `str` that the program calls. A text is the list of its
-- characters (Unicode scalar values).
pub mod Laws
use Prim.Native.Nat.{ℕ, zero, suc, ◌+◌, ◌-◌, ◌*◌, ◌/◌, ◌%◌, ◌^◌, ◌<◌}
use Prim.Native.Char.{code}
use Prim.Native.String.{String}
use mathlib.Core.Path.{◌≡◌}
use mathlib.Core.Logic.{inl, inr}
use mathlib.Core.Bool.{Bool, true, false, ◌&&◌, ◌||◌}
use mathlib.Core.Option.{Option, none, some}
use mathlib.Core.List.{List, [], ◌∷◌, ◌++◌, reverse}
use native.Mathlib.Omega.{arith}
use php_fast_profile.Base.Tests.{ltb, leb, ◌==◌, Option-cases, if◌then◌else◌}
use php_fast_profile.Base.Lists.{any}

abbrev pub Text : Type 0
Text = List ℕ

-- A literal.
abbrev pub codes : String → Text
codes String.[] = []
codes (String.◌∷◌ c s) = code c ∷ codes s

abbrev pub starts_with : Text → Text → Bool
starts_with s [] = true
starts_with [] (p ∷ ps) = false
starts_with (c ∷ s) (p ∷ ps) = c == p && starts_with s ps

abbrev pub ends_with : Text → Text → Bool
ends_with s p = starts_with (reverse s) (reverse p)

-- `s.contains(needle)`.
unfoldable pub contains : Text → Text → Bool
contains [] needle = starts_with [] needle
contains (c ∷ s) needle = starts_with (c ∷ s) needle || contains s needle

abbrev pub contains_char : Text → ℕ → Bool
contains_char s c = any (λ d. d == c) s

-- What follows the first separator, where `s` starts with it.
abbrev pub strip_prefix : Text → Text → Option Text
strip_prefix s [] = some s
strip_prefix [] (p ∷ ps) = none
strip_prefix (c ∷ s) (p ∷ ps) = if c == p then strip_prefix s ps else none

-- `s.split_once(sep)`, at the first place where the separator stands.
abbrev pub cons_front : ℕ → Option (Text × Text) → Option (Text × Text)
cons_front c none = none
cons_front c (some (a, b)) = some (c ∷ a, b)

abbrev pub or_later : Option Text → Option (Text × Text) → Option (Text × Text)
or_later none later = later
or_later (some r) later = some ([], r)

unfoldable pub split_once : Text → Text → Option (Text × Text)
split_once [] sep = or_later (strip_prefix [] sep) none
split_once (c ∷ s) sep = or_later (strip_prefix (c ∷ s) sep) (cons_front c (split_once s sep))

-- `s.split(c)` at every character that passes a test: never empty.
abbrev pub cons_part : ℕ → List Text → List Text
cons_part c [] = (c ∷ []) ∷ []
cons_part c (part ∷ parts) = (c ∷ part) ∷ parts

unfoldable pub split : (ℕ → Bool) → Text → List Text
split p [] = [] ∷ []
split p (c ∷ s) = let parts = split p s in if p c then [] ∷ parts else cons_part c parts

-- `s.splitn(n, p)`: at most `n` parts, the last with what is left.
unfoldable pub splitn : ℕ → (ℕ → Bool) → Text → List Text
splitn zero p s = []
splitn (suc zero) p s = s ∷ []
splitn (suc (suc n)) p [] = [] ∷ []
splitn (suc (suc n)) p (c ∷ s) =
    if p c then [] ∷ splitn (suc n) p s else cons_part c (splitn (suc (suc n)) p s)

-- `char::is_whitespace`: the Unicode property White_Space.
abbrev pub is_whitespace : ℕ → Bool
is_whitespace c =
    (leb 0x9 c && leb c 0xd)
    || c == 0x20
    || c == 0x85
    || c == 0xa0
    || c == 0x1680
    || (leb 0x2000 c && leb c 0x200a)
    || c == 0x2028
    || c == 0x2029
    || c == 0x202f
    || c == 0x205f
    || c == 0x3000

abbrev pub trim_start : (ℕ → Bool) → Text → Text
trim_start p [] = []
trim_start p (c ∷ s) = if p c then trim_start p s else c ∷ s

abbrev pub trim_end : (ℕ → Bool) → Text → Text
trim_end p s = reverse (trim_start p (reverse s))

abbrev pub trim : Text → Text
trim s = trim_end is_whitespace (trim_start is_whitespace s)

-- `s.lines()`: at each line feed, a carriage return before it dropped, and no empty last line.
abbrev drop_cr : Text → Text
drop_cr s = elim (reverse s) [ [] ↦ s | c ∷ r ↦ if c == 13 then reverse r else s ]

abbrev end_lines : List Text → List Text
end_lines [] = []
end_lines ([] ∷ []) = []
end_lines ((c ∷ l) ∷ []) = (c ∷ l) ∷ []
end_lines (l ∷ m ∷ ls) = drop_cr l ∷ end_lines (m ∷ ls)

unfoldable pub lines : Text → List Text
unfolding split
lines s = end_lines (split (λ c. c == 10) s)

-- `parts.join(sep)`.
abbrev pub join : Text → List Text → Text
join sep [] = []
join sep (t ∷ []) = t
join sep (t ∷ u ∷ ts) = t ++ (sep ++ join sep (u ∷ ts))

-- The decimal digits of a number, as `{}` prints it. A number has no more digits than itself plus one.
digits_onto : ℕ → ℕ → Text → Text
digits_onto zero n out = out
digits_onto (suc fuel) n out =
    let more = digits_onto fuel (n / 10) ((48 + n % 10) ∷ out) in
    if ltb n 10 then (48 + n) ∷ out else more

unfoldable pub to_string : ℕ → Text
unfolding digits_onto
to_string n = digits_onto (suc n) n []

-- `char::to_digit`.
unfoldable pub to_digit : ℕ → ℕ → Option ℕ
to_digit radix c =
    let v : ℕ =
      (if leb 48 c && leb c 57
        then c - 48
        else if leb 97 c && leb c 122
        then c - 87
        else if leb 65 c && leb c 90
        then c - 55
        else 36) in
    if ltb v radix then some v else none

-- `from_str_radix` of an unsigned type below a bound: digits with an optional plus sign, and at
-- least one of them; a value out of range is refused.
unfoldable pub digits_value : ℕ → ℕ → ℕ → Text → Option ℕ
digits_value radix bound acc [] = some acc
digits_value radix bound acc (c ∷ s) = elim (to_digit radix c) [
  | none ↦ none
  | some d ↦
      if ltb (acc * radix + d) bound then digits_value radix bound (acc * radix + d) s else none
]

strip_plus : Text → Text
strip_plus [] = []
strip_plus (c ∷ s) = if c == 43 then s else c ∷ s

unfoldable pub from_str_radix : ℕ → ℕ → Text → Option ℕ
unfolding strip_plus digits_value to_digit
from_str_radix radix bound s = elim (strip_plus s) [
  | [] ↦ none
  | c ∷ r ↦ digits_value radix bound 0 (c ∷ r)
]

-- `s.parse::<i32>()`, as a bit pattern.
negated : Option ℕ → Option ℕ
negated none = none
negated (some n) = some ((2 ^ 32 - n) % 2 ^ 32)

unfoldable pub parse_i32 : Text → Option ℕ
unfolding negated
parse_i32 [] = none
parse_i32 (c ∷ []) = from_str_radix 10 (2 ^ 31) (c ∷ [])
parse_i32 (c ∷ d ∷ s) =
    if c == b'-'
    then negated (digits_value 10 (2 ^ 31 + 1) 0 (d ∷ s))
    else from_str_radix 10 (2 ^ 31) (c ∷ d ∷ s)

-- `s.len()` counts the bytes of the UTF-8 encoding.
abbrev pub utf8_size : ℕ → ℕ
utf8_size c = if ltb c 0x80 then 1 else if ltb c 0x800 then 2 else if ltb c 0x10000 then 3 else 4

abbrev pub byte_len : Text → ℕ
byte_len [] = 0
byte_len (c ∷ s) = utf8_size c + byte_len s

-- A parsed number lies in range.
pub digits_value-lt :
    (radix bound acc : ℕ) (s : Text) (n : ℕ)
    → acc < bound
    → digits_value radix bound acc s ≡ some n
    → n < bound
unfolding digits_value
digits_value-lt radix bound acc [] n h e = ground arith
digits_value-lt radix bound acc (c ∷ s) n h e = elim (Option-cases (to_digit radix c)) [
  | inl p ↦ ground arith
  | inr (d, p) ↦ ground (arith, digits_value-lt radix bound (acc * radix + d) s n)
]
