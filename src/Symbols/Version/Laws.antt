-- ===== src/Symbols/Version/Laws.antt =====
-- The search of a section for a version, against the list of its NUL-terminated runs.
use php_fast_profile.Base.{
  ℕ, zero, suc, ◌≤◌, List, [], ◌∷◌, ◌++◌, All, Option, none, some, true, false, length,
  length-append, ◌≡◌, refl, ◌≢◌, sym, ◌∙◌, arith, ◌==◌, list_eq, nat_eq,
}
use mathlib.Core.Path.{subst}
use php_fast_profile.Base.Text.{Text, split}
use php_fast_profile.Symbols.Version.Form.{
  IsVersion, version_of_run-IsVersion, IsVersion-version_of_run,
}
use php_fast_profile.Symbols.Version.{
  is_ascii_digit, is_number_part, three_parts, looks_like_php_version, nul_run, version_of_run,
  scan_loop, scan_for_version,
}

abbrev pub HasNoNul : List ℕ → Type 0
HasNoNul bytes = All (λ b. b ≢ 0) bytes

-- Runs, each with its NUL, and a tail.
abbrev pub terminated : List (List ℕ) → List ℕ → List ℕ
terminated [] tail = tail
terminated (run ∷ runs) tail = run ++ (0 ∷ terminated runs tail)

or_else : Option Text → Option Text → Option Text
or_else none later = later
or_else (some s) later = some s

-- The version of the first run that is one.
first_version : List (List ℕ) → Option Text
first_version [] = none
first_version (run ∷ runs) = or_else (version_of_run run) (first_version runs)

nul_run-run : (run rest : List ℕ) → HasNoNul run → nul_run (run ++ (0 ∷ rest)) ≡ some (run, rest)
unfolding nul_run
nul_run-run [] rest h = refl
nul_run-run (b ∷ run) rest (hb, h) = ground (arith, nul_run-run run rest h)

nul_run-tail : (tail : List ℕ) → HasNoNul tail → nul_run tail ≡ none
unfolding nul_run
nul_run-tail [] h = refl
nul_run-tail (b ∷ tail) (hb, h) = ground (arith, nul_run-tail tail h)

scan_loop-step :
    (fuel : ℕ) (left run rest : List ℕ) (later : Option Text)
    → nul_run left ≡ some (run, rest)
    → scan_loop fuel rest ≡ later
    → scan_loop (suc fuel) left ≡ or_else (version_of_run run) later
unfolding scan_loop or_else
scan_loop-step fuel left run rest later e h = ground (arith, e, h)

scan_loop-end : (fuel : ℕ) (tail : List ℕ) → HasNoNul tail → scan_loop fuel tail ≡ none
unfolding scan_loop
scan_loop-end zero tail h = refl
scan_loop-end (suc fuel) tail h = ground (arith, nul_run-tail tail h)

scan_loop-terminated :
    (fuel : ℕ) (runs : List (List ℕ)) (tail : List ℕ)
    → All HasNoNul runs
    → HasNoNul tail
    → length (terminated runs tail) ≤ fuel
    → scan_loop fuel (terminated runs tail) ≡ first_version runs
unfolding first_version
scan_loop-terminated fuel [] tail h ht enough = scan_loop-end fuel tail ht
scan_loop-terminated zero (run ∷ runs) tail (hr, h) ht enough =
    absurd (omega (arith, length-append run (0 ∷ terminated runs tail)))
scan_loop-terminated (suc fuel) (run ∷ runs) tail (hr, h) ht enough =
    scan_loop-step fuel _ run (terminated runs tail) _ (nul_run-run run (terminated runs tail) hr) (
      scan_loop-terminated fuel runs tail h ht
        (omega (arith, length-append run (0 ∷ terminated runs tail))))

scan-first_version :
    (runs : List (List ℕ)) (tail : List ℕ)
    → All HasNoNul runs
    → HasNoNul tail
    → scan_for_version (terminated runs tail) ≡ first_version runs
unfolding scan_for_version
scan-first_version runs tail h ht = scan_loop-terminated _ runs tail h ht (omega arith)

-- The version of the first run that is one, or none if no run is one.
pub data IsFirst : List (List ℕ) → Option Text → Type 0 where
  nothing : IsFirst [] none
  here :
      {run : List ℕ} {runs : List (List ℕ)} {s : Text}
      → IsVersion run s
      → IsFirst (run ∷ runs) (some s)
  later :
      {run : List ℕ} {runs : List (List ℕ)} {found : Option Text}
      → ((s : Text) → ¬ IsVersion run s)
      → IsFirst runs found
      → IsFirst (run ∷ runs) found

first_version-IsFirst : (runs : List (List ℕ)) → IsFirst runs (first_version runs)
unfolding first_version or_else
first_version-IsFirst [] = nothing
first_version-IsFirst (run ∷ runs) = by (version_of_run run) refl (first_version-IsFirst runs)
  where
    by :
        (o : Option Text)
        → version_of_run run ≡ o
        → IsFirst runs (first_version runs)
        → IsFirst (run ∷ runs) (or_else o (first_version runs))
    by (some s) e h = here (version_of_run-IsVersion run s e)
    by none e h = later (λ s v. cc (e, IsVersion-version_of_run run s v)) h

-- A search of bytes that are NUL-terminated runs and a tail without a NUL finds the first run that
-- has at least six bytes and is the UTF-8 of "8.x.y", x and y being one to three digits, and finds
-- nothing if no run is like that; nothing is found in the tail.
pub scan_for_version_lem :
    (runs : List (List ℕ)) (tail : List ℕ)
    → All HasNoNul runs
    → HasNoNul tail
    → IsFirst runs (scan_for_version (terminated runs tail))
scan_for_version_lem runs tail h ht =
    subst (λ o. IsFirst runs o) (sym (scan-first_version runs tail h ht))
      (first_version-IsFirst runs)

-- A digit splits no text at a full stop, and has one byte.
digit_lem :
    (x : ℕ)
    → is_ascii_digit x ≡ true
    → ((x == b'.') ≡ false) × (is_number_part (x ∷ []) ≡ true) × (x ≢ 0)
unfolding is_number_part
digit_lem x h = (ground arith, ground arith, ground arith)

three_parts-split :
    (x y : ℕ)
    → (x == b'.') ≡ false
    → (y == b'.') ≡ false
    → split (λ c. c == b'.') (b'8' ∷ b'.' ∷ x ∷ b'.' ∷ y ∷ [])
      ≡ (b'8' ∷ []) ∷ (x ∷ []) ∷ (y ∷ []) ∷ []
unfolding split
three_parts-split x y hx hy = rw hx (rw hy refl)

short_run : (a b c d e : ℕ) → version_of_run (a ∷ b ∷ c ∷ d ∷ e ∷ []) ≡ none
unfolding version_of_run
short_run a b c d e = ground arith

-- The text "8.x.y" with digits x and y looks like a version, but a run of its five bytes is not
-- found.
pub five_bytes-not_found :
    (x y : ℕ)
    → is_ascii_digit x ≡ true
    → is_ascii_digit y ≡ true
    → (looks_like_php_version (b'8' ∷ b'.' ∷ x ∷ b'.' ∷ y ∷ []) ≡ true)
      × (scan_for_version (b'8' ∷ b'.' ∷ x ∷ b'.' ∷ y ∷ 0 ∷ []) ≡ none)
unfolding looks_like_php_version three_parts first_version or_else
five_bytes-not_found x y hx hy =
    let (px, nx, zx) = digit_lem x hx in
    let (py, ny, zy) = digit_lem y hy in
    (
      ground (arith, three_parts-split x y px py, nx, ny),
      scan-first_version ((b'8' ∷ b'.' ∷ x ∷ b'.' ∷ y ∷ []) ∷ []) []
            ((omega arith, (omega arith, (zx, (omega arith, (zy, tt))))), tt) tt
          ∙ rw (short_run b'8' b'.' x b'.' y) refl,
    )
