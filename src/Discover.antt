-- ===== src/Discover.antt =====
-- src/discover.rs: the processes that pass a filter, and the container of the profiler itself.
--
-- The files of a process under /proc, and the entries of /proc, are parameters, `none` where a file
-- or a directory cannot be read. A pid is the bit pattern of an `i32`, a set of pids a list without
-- repetition, whose order is not specified.
pub mod Filter
pub mod Laws
use php_fast_profile.Base.{
  ℕ, List, [], ◌∷◌, map, any, take, Option, none, some, Bool, true, false, ◌==◌, if◌then◌else◌,
}
use php_fast_profile.Base.Act.{Outcome, ok, err, bind, open_failed}
use php_fast_profile.Base.Map.{value_or}
use php_fast_profile.Base.Text.{Text, codes, contains, trim, lines, split, strip_prefix, parse_i32}
use php_fast_profile.Base.Utf8.{from_utf8_lossy}

pub record ProcessFilter : Type 0 where
  pub name : Option Text
  pub cmdline : Option Text
  pub cgroup : Option Text

-- What /proc/PID holds: two texts, and the bytes of the command line.
pub record ProcFiles : Type 0 where
  pub comm : Option Text
  pub cmdline : Option (List ℕ)
  pub cgroup : Option Text

unfoldable pub read_trim : Option Text → Outcome Text
read_trim none = err open_failed
read_trim (some s) = ok (trim s)

blank_nul : ℕ → ℕ
blank_nul c = if c == 0 then b' ' else c

unfoldable pub read_cmdline : Option (List ℕ) → Outcome Text
unfolding blank_nul
read_cmdline none = err open_failed
read_cmdline (some raw) = ok (trim (map blank_nul (from_utf8_lossy raw)))

-- A wanted text is looked for in a text that may not be readable; `next` is the rest of the filter.
check_text : Option Text → Outcome Text → Outcome Bool → Outcome Bool
check_text none text next = next
check_text (some needle) text next = bind text λ s. if contains s needle then next else ok false

or_default : Outcome Text → Outcome Text
or_default (ok s) = ok s
or_default r = ok []

unfoldable pub matches : ProcFiles → ProcessFilter → Outcome Bool
unfolding check_text or_default
matches files f = check_text f.name (read_trim files.comm) (
    check_text f.cmdline (read_cmdline files.cmdline)
      (check_text f.cgroup (or_default (read_trim files.cgroup)) (ok true)))

-- `HashSet::insert`
unfoldable pub insert_pid : ℕ → List ℕ → List ℕ
insert_pid pid out = if any (λ q. q == pid) out then out else pid ∷ out

-- `.unwrap_or(false)`
abbrev pub is_match : Outcome Bool → Bool
is_match (ok b) = b
is_match r = false

-- An entry of /proc: a name that is not UTF-8 or not a number is left out.
abbrev pub pid_of : Option Text → Option ℕ
pid_of none = none
pid_of (some name) = parse_i32 name

module _ (files : ℕ → ProcFiles) (f : ProcessFilter) where
  unfoldable pub visit : Option ℕ → List ℕ → List ℕ
  visit none out = out
  visit (some pid) out = if is_match (matches (files pid) f) then insert_pid pid out else out

  unfoldable pub visit_all : List (Option Text) → List ℕ → List ℕ
  visit_all [] out = out
  visit_all (name ∷ entries) out = visit_all entries (visit (pid_of name) out)

  unfoldable pub discover : Option (List (Option Text)) → Outcome (List ℕ)
  discover none = err open_failed
  discover (some entries) = ok (visit_all entries [])

-- What follows the last place of a text that is not empty: `s.rfind(needle)`, and the slice behind it.
unfoldable pub after_last : Text → Text → Option Text
after_last needle [] = none
after_last needle (c ∷ s) = or_else (after_last needle s) (strip_prefix (c ∷ s) needle)
  where
    or_else : Option Text → Option Text → Option Text
    or_else none here = here
    or_else (some later) here = some later

-- `line.rsplit(':').next()`
abbrev last_field : Text → Text
last_field line = value_or line (after_last (codes ":") line)

-- `after.split('.').next()`
first_part : List Text → Option Text
first_part [] = none
first_part (part ∷ parts) = some part

-- The container that a path names by `docker-`, or else by `/docker/`; `rest` is what follows it.
container_of : Option Text → Option Text → Option Text → Option Text
container_of (some after) other rest = first_part (split (λ c. c == b'.') after)
container_of none (some after) rest = some (take 64 after)
container_of none none rest = rest

unfoldable pub cgroup_id_of : List Text → Option Text
unfolding container_of first_part
cgroup_id_of [] = none
cgroup_id_of (line ∷ rest) =
    container_of (after_last (codes "docker-") (last_field line))
      (after_last (codes "/docker/") (last_field line)) (cgroup_id_of rest)

unfoldable pub self_cgroup_id : Option Text → Option Text
self_cgroup_id none = none
self_cgroup_id (some cg) = cgroup_id_of (lines cg)
