-- ===== src/Symbols/Version.antt =====
-- src/symbols.rs, `scan_for_version` and `looks_like_php_version`: the search of a section for the
-- version literal.
pub mod Form
pub mod Laws
use php_fast_profile.Base.{
  ℕ, zero, suc, List, [], ◌∷◌, Option, none, some, Bool, false, ◌&&◌, length, all, ltb, leb, ◌==◌,
  if◌then◌else◌, eqb, list_eq, nat_eq,
}
use php_fast_profile.Base.Utf8.{from_utf8}
use php_fast_profile.Base.Text.{Text, codes, split, byte_len}

abbrev pub is_ascii_digit : ℕ → Bool
is_ascii_digit c = leb 48 c && leb c 57

-- One to three digits; `len` counts bytes.
unfoldable pub is_number_part : Text → Bool
is_number_part s = leb 1 (byte_len s) && leb (byte_len s) 3 && all is_ascii_digit s

unfoldable pub three_parts : List Text → Bool
unfolding is_number_part
three_parts (major ∷ minor ∷ patch ∷ []) =
    eqb major (codes "8") && is_number_part minor && is_number_part patch
three_parts _ = false

unfoldable pub looks_like_php_version : Text → Bool
unfolding three_parts
looks_like_php_version s = three_parts (split (λ c. c == b'.') s)

-- The run of a buffer up to its first NUL, and what follows that; `none` without a NUL.
abbrev longer : ℕ → Option (List ℕ × List ℕ) → Option (List ℕ × List ℕ)
longer b none = none
longer b (some (run, rest)) = some (b ∷ run, rest)

unfoldable pub nul_run : List ℕ → Option (List ℕ × List ℕ)
nul_run [] = none
nul_run (b ∷ bs) = let more = longer b (nul_run bs) in if b == 0 then some ([], bs) else more

-- What one run gives.
unfoldable pub version_of_run : List ℕ → Option Text
version_of_run run =
    if ltb 5 (length run)
    then elim (from_utf8 run) [
      | none ↦ none
      | some s ↦ if looks_like_php_version s then some s else none
    ]
    else none

-- The loop of `scan_for_version` on what is left of the data; each round drops a NUL at least, so
-- the length of the data is fuel enough.
unfoldable pub scan_loop : ℕ → List ℕ → Option Text
scan_loop zero data_left = none
scan_loop (suc fuel) data_left = elim (nul_run data_left) [
  | none ↦ none
  | some (run, rest) ↦ elim (version_of_run run) [ none ↦ scan_loop fuel rest | some s ↦ some s ]
]

unfoldable pub scan_for_version : List ℕ → Option Text
scan_for_version bytes = scan_loop (length bytes) bytes
