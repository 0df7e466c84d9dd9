-- ===== src/Discover/Filter.antt =====
-- What a filter asks of a process, apart from the order in which `matches` reads its files.
use php_fast_profile.Base.{
  ℕ, List, map, Option, none, some, Bool, true, false, ◌&&◌, ◌==◌, ◌≡◌, refl, arith, [],
  if◌then◌else◌,
}
use php_fast_profile.Base.Act.{Outcome, ok, err, open_failed}
use php_fast_profile.Base.Text.{Text, contains, trim}
use php_fast_profile.Base.Utf8.{from_utf8_lossy}
use php_fast_profile.Discover.{
  ProcFiles, ProcessFilter, read_trim, read_cmdline, check_text, or_default, matches, is_match,
}

-- What is asked of one text: nothing, or that it can be read and has the needle in it.
abbrev pub shows : Option Text → Option Text → Bool
shows none text = true
shows (some needle) none = false
shows (some needle) (some text) = contains text needle

abbrev pub trimmed : Option Text → Option Text
trimmed none = none
trimmed (some s) = some (trim s)

-- The words of a command line, which end with NULs, with spaces between them.
abbrev pub command_line : Option (List ℕ) → Option Text
command_line none = none
command_line (some raw) = some (trim (map (λ c. if c == 0 then b' ' else c) (from_utf8_lossy raw)))

-- A control group that cannot be read counts as empty.
abbrev pub or_empty : Option Text → Option Text
or_empty none = some []
or_empty (some s) = some s

-- The filter, file by file: the name, the command line and the control group.
abbrev pub passes : ProcFiles → ProcessFilter → Bool
passes files f =
    shows f.name (trimmed files.comm)
    && (shows f.cmdline (command_line files.cmdline)
        && shows f.cgroup (or_empty (trimmed files.cgroup)))

abbrev outcome_of : Option Text → Outcome Text
outcome_of none = err open_failed
outcome_of (some s) = ok s

-- One check, with the checks behind it.
is_match-check_text :
    (needle text : Option Text) (next : Outcome Bool)
    → is_match (check_text needle (outcome_of text) next) ≡ shows needle text && is_match next
unfolding check_text
is_match-check_text none text next = refl
is_match-check_text (some needle) none next = refl
is_match-check_text (some needle) (some text) next = by (contains text needle)
  where
    by : (b : Bool) → is_match (if b then next else ok false) ≡ b && is_match next
    by true = refl
    by false = refl

read_trim-outcome_of : (text : Option Text) → read_trim text ≡ outcome_of (trimmed text)
unfolding read_trim
read_trim-outcome_of none = refl
read_trim-outcome_of (some s) = refl

read_cmdline-outcome_of : (raw : Option (List ℕ)) → read_cmdline raw ≡ outcome_of (command_line raw)
unfolding read_cmdline
read_cmdline-outcome_of none = refl
read_cmdline-outcome_of (some raw) = refl

or_default-outcome_of :
    (text : Option Text) → or_default (read_trim text) ≡ outcome_of (or_empty (trimmed text))
unfolding read_trim or_default
or_default-outcome_of none = refl
or_default-outcome_of (some s) = refl

pub is_match-matches :
    (files : ProcFiles) (f : ProcessFilter) → is_match (matches files f) ≡ passes files f
unfolding matches
is_match-matches files f = rw (read_trim-outcome_of files.comm) (
    rw (read_cmdline-outcome_of files.cmdline) (
      rw (or_default-outcome_of files.cgroup) (
        checked _ _ _ (is_match-check_text f.name (trimmed files.comm) _)
          (is_match-check_text f.cmdline (command_line files.cmdline) _)
          (is_match-check_text f.cgroup (or_empty (trimmed files.cgroup)) (ok true)))))
  where
    checked :
        {all two one : Bool} (a b c : Bool)
        → all ≡ a && two
        → two ≡ b && one
        → one ≡ c && true
        → all ≡ a && (b && c)
    checked a b c h i j = ground (arith, h, i, j)
