-- ===== src/Base/Text/Laws.antt =====
-- Texts that are cut at the separators with which they were put together.
use Prim.Native.Nat.{ℕ, suc, ◌+◌, ◌*◌, ◌≤◌, ◌<◌}
use mathlib.Core.Path.{◌≡◌, refl, sym, ap, subst, ◌∙◌}
use mathlib.Core.Bool.{Bool, true, false}
use mathlib.Core.Option.{none, some}
use mathlib.Core.List.{List, [], ◌∷◌, ◌++◌, map, reverse}
use native.Mathlib.Omega.{arith}
use php_fast_profile.Base.Tests.{ltb, ◌==◌, if◌then◌else◌}
use php_fast_profile.Base.Lists.{All}
use php_fast_profile.Base.Text.{
  Text, starts_with, ends_with, split_once, split, splitn, cons_part, end_lines, drop_cr, lines,
  to_digit, digits_value, from_str_radix, trim_start, strip_plus,
}

module _ (p : ℕ → Bool) (sep : ℕ) (is_sep : p sep ≡ true) where
  pub splitn-word :
      (n : ℕ) (w rest : Text)
      → All (λ c. p c ≡ false) w
      → splitn (suc (suc n)) p (w ++ (sep ∷ rest)) ≡ w ∷ splitn (suc n) p rest
  unfolding splitn
  splitn-word n [] rest h = ground (arith, is_sep)
  splitn-word n (c ∷ w) rest (hc, h) = ground (arith, hc, splitn-word n w rest h)

  pub split-word :
      (w rest : Text) → All (λ c. p c ≡ false) w → split p (w ++ (sep ∷ rest)) ≡ w ∷ split p rest
  unfolding split
  split-word [] rest h = ground (arith, is_sep)
  split-word (c ∷ w) rest (hc, h) = ground (arith, hc, split-word w rest h)

pub split_once-word :
    (sep : ℕ) (w rest : Text)
    → All (λ c. (c == sep) ≡ false) w
    → split_once (w ++ (sep ∷ rest)) (sep ∷ []) ≡ some (w, rest)
unfolding split_once
split_once-word sep [] rest h = ground arith
split_once-word sep (c ∷ w) rest (hc, h) = ground (arith, hc, split_once-word sep w rest h)

-- The parts of a text are one at least.
pub record HasPart (parts : List Text) : Type 0 where
  pub part : Text
  pub others : List Text
  pub whole : parts ≡ part ∷ others

pub split-HasPart : (p : ℕ → Bool) (s : Text) → HasPart (split p s)
unfolding split
split-HasPart p [] = record { part = []; others = []; whole = refl }
split-HasPart p (c ∷ s) = cut (p c) (split p s) (split-HasPart p s)
  where
    cut :
        (b : Bool) (parts : List Text)
        → HasPart parts
        → HasPart (if b then [] ∷ parts else cons_part c parts)
    cut true parts h = record { part = []; others = parts; whole = refl }
    cut false parts h = record {
      part = c ∷ h.part;
      others = h.others;
      whole = ground (arith, h.whole);
    }

-- A line: no line feed in it, and no carriage return at its end.
pub record IsLine (l : Text) : Type 0 where
  pub no_lf : All (λ c. (c == 10) ≡ false) l
  pub no_cr : ends_with l (13 ∷ []) ≡ false

drop_cr-IsLine : (l : Text) → IsLine l → drop_cr l ≡ l
drop_cr-IsLine l h = same (reverse l) h.no_cr
  where
    same :
        (r : Text)
        → starts_with r (13 ∷ []) ≡ false
        → elim r [ [] ↦ l | c ∷ s ↦ if c == 13 then reverse s else l ] ≡ l
    same [] e = refl
    same (c ∷ s) e = ground (arith, e)

pub lines-IsLine : (l rest : Text) → IsLine l → lines (l ++ (10 ∷ rest)) ≡ l ∷ lines rest
unfolding lines
lines-IsLine l rest h =
    let part = split-HasPart (λ c. c == 10) rest in
    ap end_lines (split-word (λ c. c == 10) 10 (ground arith) l rest h.no_lf)
    ∙ ended (split (λ c. c == 10) rest) part
  where
    ended : (parts : List Text) → HasPart parts → end_lines (l ∷ parts) ≡ l ∷ end_lines parts
    ended [] q = cc (q.whole)
    ended (m ∷ ms) q = ap (λ k. k ∷ end_lines (m ∷ ms)) (drop_cr-IsLine l h)

pub trim_start-append :
    (p : ℕ → Bool) (pad s : Text)
    → All (λ c. p c ≡ true) pad
    → trim_start p (pad ++ s) ≡ trim_start p s
trim_start-append p [] s h = refl
trim_start-append p (c ∷ pad) s (hc, h) = ground (arith, hc, trim_start-append p pad s h)

-- Digits of a number in base 16, the first the highest, in lower case.
abbrev pub hex_char : ℕ → ℕ
hex_char d = if ltb d 10 then 48 + d else 87 + d

unfoldable pub hex_value : ℕ → List ℕ → ℕ
hex_value acc [] = acc
hex_value acc (d ∷ ds) = hex_value (acc * 16 + d) ds

to_digit-hex_char : (d : ℕ) → d < 16 → to_digit 16 (hex_char d) ≡ some d
unfolding to_digit
to_digit-hex_char d h = ground (arith, h)

le-hex_value : (acc : ℕ) (ds : List ℕ) → acc ≤ hex_value acc ds
unfolding hex_value
le-hex_value acc [] = omega arith
le-hex_value acc (d ∷ ds) = omega (arith, le-hex_value (acc * 16 + d) ds)

digits_value-hex :
    (bound acc : ℕ) (ds : List ℕ)
    → All (λ d. d < 16) ds
    → hex_value acc ds < bound
    → digits_value 16 bound acc (map hex_char ds) ≡ some (hex_value acc ds)
unfolding digits_value hex_value
digits_value-hex bound acc [] h small = refl
digits_value-hex bound acc (d ∷ ds) (hd, h) small = ground (
  arith,
  to_digit-hex_char d hd,
  le-hex_value (acc * 16 + d) ds,
  digits_value-hex bound (acc * 16 + d) ds h small,
)

-- A number below the bound is read back from its digits.
pub from_str_radix-hex :
    (bound d : ℕ) (ds : List ℕ)
    → All (λ d. d < 16) (d ∷ ds)
    → hex_value 0 (d ∷ ds) < bound
    → from_str_radix 16 bound (map hex_char (d ∷ ds)) ≡ some (hex_value 0 (d ∷ ds))
unfolding from_str_radix strip_plus
from_str_radix-hex bound d ds (hd, h) small =
    subst
      (λ (b : Bool).
        elim (if b then map hex_char ds else hex_char d ∷ map hex_char ds) [
          | [] ↦ none
          | c ∷ r ↦ digits_value 16 bound 0 (c ∷ r)
        ]
        ≡ some (hex_value 0 (d ∷ ds)))
      (sym not_plus) (digits_value-hex bound 0 (d ∷ ds) (hd, h) small)
  where
    not_plus : (hex_char d == 43) ≡ false
    not_plus = ground (arith, hd)
