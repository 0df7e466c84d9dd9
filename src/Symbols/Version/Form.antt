-- ===== src/Symbols/Version/Form.antt =====
-- What a version looks like, apart from how `looks_like_php_version` finds out.
use php_fast_profile.Base.{
  ℕ, ◌≤◌, List, [], ◌∷◌, ◌++◌, All, Option, none, some, Bool, true, false, length, all, ◌≡◌, refl,
  sym, ap, ◌∙◌, arith, ◌==◌, ==_iff, ltb, if◌then◌else◌, list_eq, nat_eq, list_beq_iff,
}
use mathlib.Core.Path.{subst}
use php_fast_profile.Base.Text.{Text, codes, split, cons_part, byte_len}
use php_fast_profile.Base.Text.Laws.{split-word, HasPart, split-HasPart}
use php_fast_profile.Base.Utf8.{from_utf8}
use php_fast_profile.Symbols.Version.{
  is_ascii_digit, is_number_part, three_parts, looks_like_php_version, version_of_run,
}

abbrev pub IsDigit : ℕ → Type 0
IsDigit c = (b'0' ≤ c) × (c ≤ b'9')

-- One to three digits.
abbrev pub IsPart : Text → Type 0
IsPart s = All IsDigit s × (1 ≤ length s) × (length s ≤ 3)

-- A run of at least six bytes that is the UTF-8 of "8.x.y", with parts x and y.
pub record IsVersion (run : List ℕ) (s : Text) : Type 0 where
  pub minor : Text
  pub patch : Text
  pub long : 6 ≤ length run
  pub read : from_utf8 run ≡ some s
  pub form : s ≡ b'8' ∷ b'.' ∷ (minor ++ (b'.' ∷ patch))
  pub minor_part : IsPart minor
  pub patch_part : IsPart patch

abbrev is_dot : ℕ → Bool
is_dot c = c == b'.'

-- Parts with full stops between them.
join : List Text → Text
join [] = []
join (part ∷ []) = part
join (part ∷ (other ∷ parts)) = part ++ (b'.' ∷ join (other ∷ parts))

join-cons_part :
    (c : ℕ) (part : Text) (others : List Text)
    → join (cons_part c (part ∷ others)) ≡ c ∷ join (part ∷ others)
unfolding join
join-cons_part c part [] = refl
join-cons_part c part (other ∷ others) = refl

join-split : (s : Text) → join (split is_dot s) ≡ s
unfolding split join
join-split [] = refl
join-split (c ∷ s) = step (is_dot c) refl (split-HasPart is_dot s) (join-split s)
  where
    step :
        (b : Bool) {parts : List Text}
        → is_dot c ≡ b
        → HasPart parts
        → join parts ≡ s
        → join (if b then [] ∷ parts else cons_part c parts) ≡ c ∷ s
    step true {parts} e h j =
        let dot : b'.' ≡ c = sym ((==_iff c b'.').0 e) in
        subst (λ ps. join ps ≡ s → join ([] ∷ ps) ≡ c ∷ s) (sym h.whole)
          (λ k. ground (arith, k, dot)) j
    step false {parts} e h j =
        subst (λ ps. join ps ≡ s → join (cons_part c ps) ≡ c ∷ s) (sym h.whole)
          (λ k. join-cons_part c h.part h.others ∙ ap (λ t. c ∷ t) k) j

byte_len-digits : (s : Text) → All IsDigit s → byte_len s ≡ length s
byte_len-digits [] h = refl
byte_len-digits (c ∷ s) (d, h) = ground (arith, d, byte_len-digits s h)

all-All : (s : Text) → all is_ascii_digit s ≡ true → All IsDigit s
all-All [] e = tt
all-All (c ∷ s) e = (ground (arith, e), all-All s (ground (arith, e)))

All-all : (s : Text) → All IsDigit s → all is_ascii_digit s ≡ true
All-all [] h = refl
All-all (c ∷ s) (d, h) = ground (arith, d, All-all s h)

is_number_part-IsPart : (s : Text) → is_number_part s ≡ true → IsPart s
unfolding is_number_part
is_number_part-IsPart s e =
    let digits = all-All s (ground (arith, e)) in
    let len = byte_len-digits s digits in (digits, ground (arith, e, len), ground (arith, e, len))

IsPart-is_number_part : (s : Text) → IsPart s → is_number_part s ≡ true
unfolding is_number_part
IsPart-is_number_part s (digits, least, most) =
    ground (arith, All-all s digits, byte_len-digits s digits, least, most)

-- The form, without the bytes it was read from.
record HasForm (s : Text) : Type 0 where
  minor : Text
  patch : Text
  form : s ≡ b'8' ∷ b'.' ∷ (minor ++ (b'.' ∷ patch))
  minor_part : IsPart minor
  patch_part : IsPart patch

three_parts-HasForm : (parts : List Text) → three_parts parts ≡ true → HasForm (join parts)
unfolding three_parts join
three_parts-HasForm [] e = cc
three_parts-HasForm (a ∷ []) e = cc
three_parts-HasForm (a ∷ b ∷ []) e = cc
three_parts-HasForm (a ∷ b ∷ c ∷ []) e =
    let major : a ≡ b'8' ∷ [] = (list_beq_iff a (codes "8")).0 (ground (arith, e)) in
    record {
      minor = b;
      patch = c;
      form = ap (λ t. t ++ (b'.' ∷ (b ++ (b'.' ∷ c)))) major;
      minor_part = is_number_part-IsPart b (ground (arith, e));
      patch_part = is_number_part-IsPart c (ground (arith, e));
    }
three_parts-HasForm (a ∷ b ∷ c ∷ d ∷ parts) e = cc

looks_like_php_version-HasForm : (s : Text) → looks_like_php_version s ≡ true → HasForm s
unfolding looks_like_php_version
looks_like_php_version-HasForm s e =
    subst (λ t. HasForm t) (join-split s) (three_parts-HasForm (split is_dot s) e)

no_dot : (s : Text) → All IsDigit s → All (λ c. is_dot c ≡ false) s
no_dot [] h = tt
no_dot (c ∷ s) (d, h) = (ground (arith, d), no_dot s h)

split-last : (s : Text) → All (λ c. is_dot c ≡ false) s → split is_dot s ≡ s ∷ []
unfolding split
split-last [] h = refl
split-last (c ∷ s) (d, h) = ground (arith, d, split-last s h)

HasForm-looks_like_php_version : (s : Text) → HasForm s → looks_like_php_version s ≡ true
unfolding looks_like_php_version three_parts split
HasForm-looks_like_php_version s h =
    let cut : split is_dot (h.minor ++ (b'.' ∷ h.patch)) ≡ h.minor ∷ h.patch ∷ [] =
      split-word is_dot b'.' refl h.minor h.patch (no_dot h.minor h.minor_part.0)
      ∙ ap (λ ps. h.minor ∷ ps) (split-last h.patch (no_dot h.patch h.patch_part.0)) in
    let whole : three_parts (split is_dot (b'8' ∷ b'.' ∷ (h.minor ++ (b'.' ∷ h.patch)))) ≡ true =
      ground (
        arith,
        cut,
        IsPart-is_number_part h.minor h.minor_part,
        IsPart-is_number_part h.patch h.patch_part,
      ) in
    subst (λ t. three_parts (split is_dot t) ≡ true) (sym h.form) whole

-- A run gives the version that it is, and nothing if it is none.
pub version_of_run-IsVersion :
    (run : List ℕ) (s : Text) → version_of_run run ≡ some s → IsVersion run s
unfolding version_of_run
version_of_run-IsVersion run s e = found (ltb 5 (length run)) refl (from_utf8 run) refl e
  where
    found :
        (b : Bool)
        → ltb 5 (length run) ≡ b
        → (o : Option Text) → from_utf8 run ≡ o
        → (if b
            then elim o [ none ↦ none | some t ↦ if looks_like_php_version t then some t else none ]
            else none)
          ≡ some s
        → IsVersion run s
    found false l o u e = cc
    found true l none u e = cc
    found true l (some t) u e = looked (looks_like_php_version t) refl e
      where
        looked :
            (b : Bool)
            → looks_like_php_version t ≡ b
            → (if b then some t else none) ≡ some s
            → IsVersion run s
        looked false h e = cc
        looked true h e =
            let f = looks_like_php_version-HasForm t h in
            let same : t ≡ s = ground (arith, e) in
            subst (λ v. IsVersion run v) same
              (record {
                minor = f.minor;
                patch = f.patch;
                long = ground (arith, l);
                read = u;
                form = f.form;
                minor_part = f.minor_part;
                patch_part = f.patch_part;
              })

pub IsVersion-version_of_run :
    (run : List ℕ) (s : Text) → IsVersion run s → version_of_run run ≡ some s
unfolding version_of_run
IsVersion-version_of_run run s v =
    let looks = HasForm-looks_like_php_version s (record {
      minor = v.minor;
      patch = v.patch;
      form = v.form;
      minor_part = v.minor_part;
      patch_part = v.patch_part;
    }) in
    let long : ltb 5 (length run) ≡ true = ground (arith, v.long) in
    rw long (rw v.read (rw looks refl))
