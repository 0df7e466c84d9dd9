-- ===== src/Tests/Services.antt =====
-- Discovery, the continuous export and the live table's loop, at concrete inputs.
use php_fast_profile.Base.{
  ℕ, ◌*◌, ◌%◌, ◌^◌, List, [], ◌∷◌, Option, none, some, true, false, ◌≡◌, refl, ◌==◌, if◌then◌else◌,
  nat_eq, list_eq,
}
use php_fast_profile.Base.Act.{ok, err, io_failed}
use php_fast_profile.Base.Map.{lookup, insert, upsert}
use php_fast_profile.Base.Text.{Text, codes, lines, split}
use php_fast_profile.Zend.Frame.{qualified_name}
use php_fast_profile.Discover.{
  ProcFiles, ProcessFilter, discover, self_cgroup_id, cgroup_id_of, after_last,
}
use php_fast_profile.Discover.Laws.{IsDiscovery, discover_lem}
use php_fast_profile.Output.Config.{PyroscopeConfig}
use php_fast_profile.Output.Pprof.{
  Profile, new, add, add_frames, add_frame, location_id, function_id, intern, count_sample,
  is_empty,
}
use php_fast_profile.Output.Pprof.Counts.{new-IsWellFormed, add-AddedFrames}
use php_fast_profile.Output.Pyroscope.{Service, PyroscopeSink, new_sink, push, write_sample, finish}
use php_fast_profile.Output.Pyroscope.Laws.{HasNoPanic, pyroscope-ok, SendsWindow, push_lem}
use php_fast_profile.Tui.Laws.{row, count_if, ends_in, shows, stacks_of}
use php_fast_profile.Tui.{record_stack, count_inclusive, reset, Aggregator}
use php_fast_profile.Tui.Loop.{
  Round, View, Event, KeyCode, goes, drain, press, on_event, on_draw, draw_if_due, one_round, go_on,
  run_loop, first_view,
}
use php_fast_profile.Tui.Loop.Laws.{since_reset, run_loop_lem}
use php_fast_profile.Tests.Memory.{frame}

abbrev files : ℕ → ProcFiles
files pid = record {
  comm = if pid == 7 then some (codes "php-fpm") else none;
  cmdline = none;
  cgroup = none;
}

abbrev filter : ProcessFilter
filter = record { name = some (codes "php"); cmdline = none; cgroup = none }

abbrev entries : List (Option Text)
entries = some (codes "7") ∷ some (codes "cpuinfo") ∷ none ∷ some (codes "8") ∷ []

discover_lem_example :
    (out : List ℕ) × (discover files filter (some entries) ≡ ok out)
    × IsDiscovery files filter entries out
discover_lem_example = discover_lem files filter entries

container : self_cgroup_id (some (codes "0::/system.slice/docker-4f2a.scope")) ≡ some (codes "4f2a")
unfolding self_cgroup_id cgroup_id_of after_last lines split
container = refl

abbrev cfg : PyroscopeConfig
cfg = record {
  url = codes "http://p:4040";
  name = codes "php";
  auth_token = none;
  tenant_id = none;
  headers = [];
  push_interval = 10;
}

abbrev pub bytes_of : Profile → List ℕ
bytes_of p = p.time_nanos ∷ []

abbrev pub service : Service
service = record {
  encode = λ p. ok (bytes_of p);
  answer = λ n calls. err io_failed;
  instant = λ n. n * 1_000_000_000;
  wall = λ n. n * 1_000_000_000;
}

pub service-HasNoPanic : HasNoPanic service
service-HasNoPanic = record { encode = λ p e. cc; answer = λ n calls e. cc }

abbrev sink : PyroscopeSink
sink = record (new_sink service cfg) { builder = add (frame ∷ []) (new 0) }

pyroscope-ok_example :
    ((write_sample service (frame ∷ []) sink).0 ≡ ok tt) × ((finish service sink).0 ≡ ok tt)
pyroscope-ok_example = pyroscope-ok service (frame ∷ []) sink service-HasNoPanic

has_samples : is_empty sink.builder ≡ false
unfolding is_empty add count_sample upsert new add_frames add_frame location_id function_id intern
    lookup insert qualified_name
has_samples = refl

push_lem_example : SendsWindow service bytes_of sink (push service sink).1
push_lem_example =
    push_lem service bytes_of sink service-HasNoPanic (λ p. refl)
      (add-AddedFrames (frame ∷ []) (new 0) (new-IsWellFormed 0)).0 has_samples

abbrev quiet_round : Round
quiet_round = record {
  stop = false;
  received = (5, frame ∷ []) ∷ [];
  disconnected = false;
  now = 5;
  drawn = ok tt;
  event = ok none;
}

abbrev rounds : List Round
rounds =
    quiet_round
    ∷ record quiet_round { event = ok (some (Event.pressed KeyCode.r)) }
    ∷ quiet_round
    ∷ []

abbrev last_view : View
last_view = record {
  agg = record {
    rows = (codes "f", record { exclusive = 1; inclusive = 1 }) ∷ [];
    samples = 1;
    started = some 5;
  };
  by_inclusive = true;
  last_draw = 5;
}

shown : run_loop 1 rounds (first_view 1 0) ≡ goes last_view
unfolding run_loop one_round go_on draw_if_due on_draw on_event press drain first_view record_stack
    count_inclusive reset upsert qualified_name
shown = refl

run_loop_lem_example :
    ((row (codes "f") last_view.agg.rows).exclusive % 2 ^ 64
      ≡ count_if (ends_in (codes "f")) (stacks_of (since_reset [] rounds)) % 2 ^ 64)
    × ((row (codes "f") last_view.agg.rows).inclusive % 2 ^ 64
        ≡ count_if (shows (codes "f")) (stacks_of (since_reset [] rounds)) % 2 ^ 64)
run_loop_lem_example = run_loop_lem 1 0 rounds last_view (codes "f") shown

abbrev table : Aggregator
table = record {
  rows =
      (codes "f", record { exclusive = 1; inclusive = 4 })
      ∷ (codes "g", record { exclusive = 3; inclusive = 3 })
      ∷ [];
  samples = 4;
  started = none;
}
