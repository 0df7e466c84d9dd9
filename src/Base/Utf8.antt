-- ===== src/Base/Utf8.antt =====
-- The standard library's UTF-8 decoding, as Rust documents it: `String::from_utf8_lossy` puts one
-- U+FFFD for each maximal ill-formed part, and `str::from_utf8` refuses any. A text is the list of
-- its Unicode scalar values.
use Prim.Native.Nat.{ℕ, zero, suc, ◌+◌, ◌-◌, ◌*◌, ◌≤◌, ◌<◌}
use mathlib.Core.Path.{◌≡◌, refl}
use mathlib.Core.Bool.{◌&&◌}
use mathlib.Core.Option.{Option, none, some}
use mathlib.Core.List.{List, [], ◌∷◌, ◌++◌}
use native.Mathlib.Omega.{arith}
use php_fast_profile.Base.Tests.{ltb, leb, ◌==◌, if◌then◌else◌}
use php_fast_profile.Base.Lists.{length, length-append, All}

-- Between two bytes: at a boundary, or inside a character with the value so far, the range of the
-- next byte, and the number of continuation bytes behind that one.
pub data Pending : Type 0 where
  boundary : Pending
  inside : ℕ → ℕ → ℕ → ℕ → Pending

-- What a byte completes, `none` for an ill-formed part, and where the decoder stands then.
abbrev pub Step : Type 0
Step = List (Option ℕ) × Pending

lead_byte : ℕ → Step
lead_byte b =
    if ltb b 0x80
    then (some b ∷ [], boundary)
    else if ltb b 0xc2
    then (none ∷ [], boundary)
    else if ltb b 0xe0
    then ([], inside (b - 0xc0) 0x80 0xbf 0)
    else if b == 0xe0
    then ([], inside 0 0xa0 0xbf 1)
    else if b == 0xed
    then ([], inside 0xd 0x80 0x9f 1)
    else if ltb b 0xf0
    then ([], inside (b - 0xe0) 0x80 0xbf 1)
    else if b == 0xf0
    then ([], inside 0 0x90 0xbf 2)
    else if ltb b 0xf4
    then ([], inside (b - 0xf0) 0x80 0xbf 2)
    else if b == 0xf4
    then ([], inside 4 0x80 0x8f 2)
    else (none ∷ [], boundary)

next_byte : ℕ → ℕ → Step
next_byte acc zero = (some acc ∷ [], boundary)
next_byte acc (suc left) = ([], inside acc 0x80 0xbf left)

advance : Pending → ℕ → Step
unfolding lead_byte next_byte
advance boundary b = lead_byte b
advance (inside acc lo hi left) b =
    if leb lo b && leb b hi
    then next_byte (acc * 64 + (b - 0x80)) left
    else (let (out, p) = lead_byte b in (none ∷ out, p))

-- The characters of a byte string from a state on, `none` for each ill-formed part.
unfoldable pub decode : Pending → List ℕ → List (Option ℕ)
unfolding advance
decode boundary [] = []
decode (inside acc lo hi left) [] = none ∷ []
decode p (b ∷ bs) = let (out, p') = advance p b in out ++ decode p' bs

abbrev replace : List (Option ℕ) → List ℕ
replace [] = []
replace (none ∷ cs) = 0xfffd ∷ replace cs
replace (some c ∷ cs) = c ∷ replace cs

abbrev strict : List (Option ℕ) → Option (List ℕ)
strict [] = some []
strict (none ∷ cs) = none
strict (some c ∷ cs) = elim (strict cs) [ none ↦ none | some s ↦ some (c ∷ s) ]

unfoldable pub from_utf8_lossy : List ℕ → List ℕ
unfolding decode
from_utf8_lossy bs = replace (decode boundary bs)

unfoldable pub from_utf8 : List ℕ → Option (List ℕ)
unfolding decode
from_utf8 bs = strict (decode boundary bs)

-- ASCII bytes are their own characters.
abbrev pub IsAscii : ℕ → Type 0
IsAscii b = b < 128

lead_byte-ascii : (b : ℕ) → b < 128 → lead_byte b ≡ (some b ∷ [], boundary)
unfolding lead_byte
lead_byte-ascii b h = ground arith

replace-decode_ascii : (bs : List ℕ) → All IsAscii bs → replace (decode boundary bs) ≡ bs
replace-decode_ascii [] h = unfold decode in refl
replace-decode_ascii (b ∷ bs) (hb, hbs) = cc (step, replace-decode_ascii bs hbs)
  where
    step : replace (decode boundary (b ∷ bs)) ≡ b ∷ replace (decode boundary bs)
    step = unfold decode advance in rw (lead_byte-ascii b hb) refl

pub from_utf8_lossy-ascii : (bs : List ℕ) → All IsAscii bs → from_utf8_lossy bs ≡ bs
unfolding from_utf8_lossy
from_utf8_lossy-ascii bs h = replace-decode_ascii bs h

-- No byte completes more than two parts, and only from inside a character, so a text has no more
-- characters than it has bytes.
abbrev carried : Pending → ℕ
carried boundary = 0
carried (inside acc lo hi left) = 1

length-advance :
    (p : Pending) (b : ℕ) → length (advance p b).0 + carried (advance p b).1 ≤ carried p + 1
unfolding advance lead_byte next_byte
length-advance boundary b = ground arith
length-advance (inside acc lo hi zero) b = ground arith
length-advance (inside acc lo hi (suc left)) b = ground arith

length-replace : (cs : List (Option ℕ)) → length (replace cs) ≡ length cs
length-replace [] = refl
length-replace (none ∷ cs) = omega (arith, length-replace cs)
length-replace (some c ∷ cs) = omega (arith, length-replace cs)

decode_step :
    (p : Pending) (b : ℕ) (bs : List ℕ)
    → decode p (b ∷ bs) ≡ (advance p b).0 ++ decode (advance p b).1 bs
unfolding decode
decode_step boundary b bs = refl
decode_step (inside acc lo hi left) b bs = refl

length-decode : (p : Pending) (bs : List ℕ) → length (decode p bs) ≤ carried p + length bs
length-decode boundary [] = unfold decode in omega arith
length-decode (inside acc lo hi left) [] = unfold decode in omega arith
length-decode p (b ∷ bs) =
    rw (decode_step p b bs, length-append)
      (omega (arith, length-advance p b, length-decode (advance p b).1 bs))

pub length-from_utf8_lossy : (bs : List ℕ) → length (from_utf8_lossy bs) ≤ length bs
unfolding from_utf8_lossy
length-from_utf8_lossy bs =
    omega (arith, length-replace (decode boundary bs), length-decode boundary bs)
