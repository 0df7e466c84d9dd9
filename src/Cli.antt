-- ===== src/Cli.antt =====
-- src/cli.rs: the addresses that the user gives, and what `run` starts for the arguments.
pub mod Laws
pub mod Process
use php_fast_profile.Base.{
  ℕ, ◌*◌, ◌/◌, ◌^◌, max, List, [], ◌∷◌, Option, none, some, Bool, true, false, ◌||◌, ◌==◌,
  if◌then◌else◌,
}
use php_fast_profile.Base.Act.{Outcome, ok, err, bind, no_cgroup, no_selector, no_process}
use php_fast_profile.Base.Map.{value_or}
use php_fast_profile.Discover.{ProcessFilter, self_cgroup_id}
use php_fast_profile.Arguments.{Args, Format, stacks, folded, pprof, top}
use php_fast_profile.Base.Text.{Text, codes, strip_prefix, from_str_radix}

or_prefix : Option Text → Option Text → Option Text
or_prefix none later = later
or_prefix (some s) later = some s

unfoldable pub parse_hex_addr : Text → Option ℕ
unfolding or_prefix
parse_hex_addr s =
    from_str_radix 16 (2 ^ 64)
      (value_or s (or_prefix (strip_prefix s (codes "0x")) (strip_prefix s (codes "0X"))))

-- `Duration::from_nanos(1_000_000_000 / args.rate_hz.max(1) as u64)`
unfoldable pub interval : Args → ℕ
interval args = 1_000_000_000 / max args.rate_hz 1

unfoldable pub duration : Args → Option ℕ
duration args = if args.duration_secs == 0 then none else some (args.duration_secs * 1_000_000_000)

-- What `run` calls, with the interval and the duration.
pub data Command : Type 0 where
  run_top : (interval : ℕ) → (duration : Option ℕ) → Command
  run_single : (pid interval : ℕ) → (duration : Option ℕ) → Command
  run_multi : ProcessFilter → (interval : ℕ) → (duration : Option ℕ) → Command

-- `.ok_or_else(..)`
cgroup_or_fail : Option Text → Outcome (Option Text)
cgroup_or_fail none = err no_cgroup
cgroup_or_fail (some id) = ok (some id)

abbrev is_given : Option Text → Bool
is_given none = false
is_given (some s) = true

abbrev filter_of : Args → Option Text → ProcessFilter
filter_of args cgroup = record { name = args.pgrep; cmdline = args.cmdline; cgroup = cgroup }

-- The end of `run`, for the container of the profiler.
multi_command : Args → Option Text → Outcome Command
unfolding cgroup_or_fail
multi_command args self_cgroup =
    if is_given args.pgrep || is_given args.cmdline
    then (bind (if args.this_container then cgroup_or_fail self_cgroup else ok none)
        λ cgroup. ok (run_multi (filter_of args cgroup) (interval args) (duration args)))
    else err no_selector

pid_command : Args → Option Text → Option ℕ → Outcome Command
unfolding multi_command
pid_command args cg (some pid) = ok (run_single pid (interval args) (duration args))
pid_command args cg none = multi_command args (self_cgroup_id cg)

format_command : Args → Option Text → Format → Outcome Command
unfolding pid_command
format_command args cg top = ok (run_top (interval args) (duration args))
format_command args cg stacks = pid_command args cg args.pid
format_command args cg folded = pid_command args cg args.pid
format_command args cg pprof = pid_command args cg args.pid

-- `run`, for the content of /proc/self/cgroup.
unfoldable pub run : Args → Option Text → Outcome Command
unfolding format_command
run args cg = format_command args cg args.format

-- src/sampler.rs, `run_top`: the processes that it samples. `discovered` is what discovery gives
-- for a filter.
found_some : Outcome (List ℕ) → Outcome (List ℕ)
found_some (ok []) = err no_process
found_some (ok (pid ∷ pids)) = ok (pid ∷ pids)
found_some r = r

unfoldable pub top_pids : Args → Option Text → (ProcessFilter → Outcome (List ℕ)) → Outcome (List ℕ)
unfolding found_some
top_pids args cg discovered = elim args.pid [
  | some pid ↦ ok (pid ∷ [])
  | none ↦
      if is_given args.pgrep || is_given args.cmdline
      then found_some
          (discovered (filter_of args (if args.this_container then self_cgroup_id cg else none)))
      else err no_selector
]
