-- ===== src/Lib.antt =====
-- pfp, a sampling profiler for PHP, attaches to a running PHP process, reads its call stack from
-- outside at a fixed rate, and writes what it saw.
--
-- How the parts interact: the symbol tables of the target's ELF (src/symbols.rs) give the address of
-- `executor_globals`, and the PHP version gives the layout of the Zend structures (src/offsets.rs).
-- A sample is a walk over the chain of `zend_execute_data` (src/target.rs, src/zend.rs) by reads of
-- the target's memory (src/remote.rs). `Target::attach` finds these out: the principal binary from the
-- maps (src/proc.rs), its symbols, and for a thread-safe build the globals behind the thread-local
-- storage of a task that is stopped for a moment (src/tls.rs). The sampler (src/sampler.rs) samples one
-- process, or the processes that discovery finds (src/discover.rs) with a thread for each; it drops
-- samples by their innermost frame and passes the others to a sink (src/output) or to the live table
-- (src/tui.rs). src/cli.rs chooses among these.
--
-- Files:
-- - Base.antt and Base/: shared types and lemmas. Base/Act.antt has results and stateful actions,
--   Base/Bytes.antt little-endian words and addition on `u64`, Base/Utf8.antt the two UTF-8 decoders
--   of the standard library, Base/Text.antt its string functions, Base/Map.antt `HashMap` as an
--   association list, Base/Order.antt and Base/Sorted.antt sorting by key, Base/Safe.antt,
--   Base/Gives.antt and Base/Ensures.antt the three ways to state what an action does.
-- - Arguments.antt: `Args` of src/cli.rs, with its defaults.
-- - Remote.antt: `Remote::read` and its typed variants. `process_vm_readv` is the field `readv`,
--   which answers the t-th call as it likes.
-- - Offsets.antt and Offsets/: the layouts, the constants and `pick`.
-- - Symbols.antt: `resolve`, `find_php_version_in_elf`; Symbols/Version.antt: `scan_for_version`, with
--   the form of a version apart from its search in Symbols/Version/Form.antt.
--   What the crate `object` parsed is the record `ElfFile`.
-- - Zend/Frame.antt: `Frame`. Zend/Reads.antt: `read_zend_string`, `ht_get_string`. Zend/Walker.antt:
--   `StackWalker::read_frame` with its string cache as the state. Zend/Walker/Stored.antt tells what
--   it means that memory holds a string, a function and a frame.
-- - Target/Capture.antt: `Target::capture_stack` and `Target::request_var`.
-- - Target/Prologue.antt: `read_php_version` and the decoders of both architectures.
-- - Target/Attach.antt: `Target::attach`, in steps that each end with the rest. The record `Machine` is
--   what it sees: the maps, the files, the tasks, the kernel, the memory and two variables of
--   `offsets::pick`. Target/Attach/Origins.antt tells where a version and the globals come from.
-- - Tls.antt: `resolve_zts_executor_globals`. Tls/Offset.antt: the decoders of the accessor of both
--   architectures. Tls/Task.antt: `pick_task`, `with_attached_task` with the calls that it makes, and
--   `read_tls_base_register`.
-- - Proc.antt: `parse_maps` and `principal_binary` of src/proc.rs. Proc/Lines.antt has a printer of the
--   kernel's format.
-- - Sampler/Leaf.antt: `leaf_is_any`. Sampler/Pace.antt: the lines that the sampling loops share, on a
--   clock whose delays are a parameter. Sampler/Run.antt: `Sampler::run` and `sample_once`, with the
--   stop flag and the existence of the process in the record `World`. Sampler/Worker.antt: a round of
--   the threads of `run_multi` and `run_top`. Sampler/Start.antt: `Sampler::attach` and `spawn_worker`.
-- - Sampler/Multi.antt: the state and the main thread of `run_multi`, cut into the steps between which
--   the workers run; Sampler/Multi/Threads.antt: the steps of all threads as a relation, in any order,
--   with the messages that they send, and the states that a run reaches; Sampler/Multi/Teardown/:
--   the steps from the stop flag to the return, in any order.
-- - Sampler/Top.antt: `run_top`, as the steps of its samplers, its timer, the signals and the table,
--   each with what it does to the samples.
-- - Output/Writer.antt: a writer on a device that may fail at any operation. Output/Stacks.antt and
--   Output/Folded.antt: the sinks of src/output/mod.rs. Output/Pprof.antt: `PprofBuilder` of
--   src/output/pprof_sink.rs, Output/Pprof/Reads.antt what a reader of the profile finds by its ids,
--   Output/PprofSink.antt the sink around it, Output/Config.antt
--   `pyroscope_config`, Output/Pyroscope.antt `PyroscopeSink`, with a request as the list of the calls
--   that build it, and Output/Pyroscope/Request.antt what a server sees of it. Output/Sink.antt is the trait `Sink`, as the interface that the sampler takes;
--   Output/Build.antt has `make_sink` and `build_sink`, with a sum for `Box<dyn Sink>`.
-- - Tui.antt: `Aggregator` of src/tui.rs. Tui/Loop.antt: `run_loop`, over the list of its rounds.
--   Tui/Draw.antt: the texts that `draw` shows, and the calls of `run` on the terminal.
-- - Sampler/Signal.antt: the module `ctrlc_like` of src/sampler.rs.
-- - Cli.antt: `parse_hex_addr` and `run` of src/cli.rs, and the processes that `run_top` of
--   src/sampler.rs selects. Cli/Process.antt: the part of `run` that attaches to one process and runs.
-- - Discover.antt: `matches`, `discover` and `self_cgroup_id` of src/discover.rs; Discover/Filter.antt
--   says what the filter asks of a process.
-- - Tests.antt and Tests/: runs of the model at concrete inputs.
--
-- Numbers: all are natural numbers. Sums of addresses and counters wrap at 2^64, as a release build
-- does. A text is its list of code points. The text of an error is not kept, only its cause.
--
-- Fuel and bounds: the loop of `capture_stack` recurs on the depth that is left, and the loops over
-- hash tables on the buckets that are left, at most 4096. The loop of `scan_for_version` runs on the
-- length of the data, which is enough, since each round drops at least one byte.
--
-- The loop of `with_attached_task` has 1001 rounds, since its two seconds hold a thousand sleeps of two
-- milliseconds. The fuel of `Sampler::run` is an argument; without a duration the loop need not end, and
-- with one, two rounds more than the intervals of the duration are enough. Those of
-- `run_multi` and `run_top` have no fuel: a run is a sequence of steps. Durations and points in time are taken to be
-- below the limits of their types.
--
-- Not modelled: the layout of the live table's widgets and the prints of its floating-point numbers, the
-- names and stack sizes of threads, the parser of the command line, what `ureq` makes of the calls for
-- a request, the protobuf and gzip encoders, and the log. A panic of the profiler's own arithmetic on
-- `Instant` is left out too, and a signal that comes while its handler's lock is held.
pub mod Arguments
pub mod Base
pub mod Remote
pub mod Offsets
pub mod Symbols
pub mod Zend
pub mod Tls
pub mod Target
pub mod Sampler
pub mod Proc
pub mod Output
pub mod Tui
pub mod Cli
pub mod Discover
pub mod Tests
