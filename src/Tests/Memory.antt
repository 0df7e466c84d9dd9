-- ===== src/Tests/Memory.antt =====
-- A target with one user function on its stack.
use php_fast_profile.Base.{
  ℕ, zero, suc, ◌+◌, ◌-◌, ◌&&◌, List, [], ◌∷◌, ◌++◌, Option, none, some, take, drop, length, leb,
  if◌then◌else◌,
}
use php_fast_profile.Base.Bytes.{to_le_bytes}
use php_fast_profile.Base.Text.{codes}
use php_fast_profile.Remote.{Remote}
use php_fast_profile.Offsets.{layout_8_3}
use php_fast_profile.Symbols.{Symbols}
use php_fast_profile.Zend.Frame.{Frame}
use php_fast_profile.Target.Capture.{Target}

abbrev pub zeros : ℕ → List ℕ
zeros zero = []
zeros (suc n) = 0 ∷ zeros n

-- Mapped regions, each with its first address.
abbrev pub read_in : List (ℕ × List ℕ) → ℕ → ℕ → Option (List ℕ)
read_in [] a n = none
read_in ((start, bytes) ∷ regions) a n =
    if leb start a && leb (a + n) (start + length bytes)
    then some (take n (drop (a - start) bytes))
    else read_in regions a n

abbrev pub execute_data : List ℕ
execute_data = zeros 24 ++ (to_le_bytes 8 8192 ++ zeros 32)

abbrev pub function : List ℕ
function =
    2
    ∷ (zeros 7
        ++ (to_le_bytes 8 12288
            ++ (zeros 128 ++ (to_le_bytes 8 16384 ++ (to_le_bytes 4 7 ++ zeros 36)))))

abbrev pub memory : List (ℕ × List ℕ)
memory =
    (1488, to_le_bytes 8 4096)
    ∷ (4096, execute_data)
    ∷ (8192, function)
    ∷ (12304, to_le_bytes 8 1 ++ (b'f' ∷ []))
    ∷ (16400, to_le_bytes 8 2 ++ codes "/t")
    ∷ []

abbrev pub remote : Remote
remote = record { readv = λ t a n. read_in memory a n }

abbrev pub symbols : Symbols
symbols = record { executor_globals = 1000; php_version = none; zts = none }

abbrev pub target : Target
target = record {
  pid = 1;
  remote = remote;
  symbols = symbols;
  php_version = codes "8.3.1";
  layout = layout_8_3;
  exe = codes "/usr/bin/php";
}

abbrev pub frame : Frame
frame = record { function = codes "f"; class = none; file = some (codes "/t"); line = 7 }
