-- ===== src/Output/Build.antt =====
-- src/output/mod.rs, `make_sink` and `build_sink`: the sink that the arguments ask for, with the
-- features of the default build. A `Box<dyn Sink>` is a sum of the sinks.
pub mod Laws
use php_fast_profile.Base.{ℕ, List, [], Option, none, some, Bool, if◌then◌else◌}
use php_fast_profile.Base.Act.{Outcome, ok, err, panic, Act, bind, open_failed}
use php_fast_profile.Base.Map.{HashMap}
use php_fast_profile.Base.Text.{Text}
use php_fast_profile.Zend.Frame.{Frame}
use php_fast_profile.Output.Writer.{Device, Writer}
use php_fast_profile.Output.Stacks
use php_fast_profile.Output.Stacks.{SampleMeta}
use php_fast_profile.Output.Folded
use php_fast_profile.Output.Folded.{FoldedSink}
use php_fast_profile.Output.PprofSink
use php_fast_profile.Output.PprofSink.{PprofSink}
use php_fast_profile.Output.Pyroscope
use php_fast_profile.Output.Pyroscope.{PyroscopeSink, Service}
use php_fast_profile.Arguments.{Args, Format}
use php_fast_profile.Output.Config.{pyroscope_config}
use php_fast_profile.Output.Sink.{Sink}

pub data AnySink : Type 0 where
  of_stacks : Writer → AnySink
  of_folded : FoldedSink → AnySink
  of_pprof : PprofSink → AnySink
  of_pyroscope : PyroscopeSink → AnySink

-- What the sinks stand on: the device of the writer, the order of the hash map, the service, and
-- the time at which the run ends.
pub record Outside : Type 0 where
  pub device : Device
  pub order : HashMap Text ℕ → HashMap Text ℕ
  pub service : Service
  pub end : ℕ

abbrev of : {S : Type 0} → (S → AnySink) → Outcome (Unit {0}) × S → Outcome (Unit {0}) × AnySink
of make (r, s) = (r, make s)

module _ (outside : Outside) where
  -- The calls of a `dyn Sink`.
  unfoldable pub write_any : List Frame → SampleMeta → Act AnySink (Unit {0})
  write_any frames meta (of_stacks w) =
      of of_stacks (Stacks.write_sample outside.device frames meta w)
  write_any frames meta (of_folded s) = (ok tt, of_folded (Folded.write_sample frames s))
  write_any frames meta (of_pprof s) = (ok tt, of_pprof (PprofSink.write_sample frames s))
  write_any frames meta (of_pyroscope s) =
      of of_pyroscope (Pyroscope.write_sample outside.service frames s)

  unfoldable pub finish_any : Act AnySink (Unit {0})
  finish_any (of_stacks w) = of of_stacks (Stacks.finish outside.device w)
  finish_any (of_folded s) = of of_folded (Folded.finish outside.device outside.order s)
  finish_any (of_pprof s) =
      of of_pprof (PprofSink.finish outside.device outside.service.encode outside.end s)
  finish_any (of_pyroscope s) = of of_pyroscope (Pyroscope.finish outside.service s)

  abbrev pub any_sink : Sink AnySink
  any_sink = record { write_sample = write_any; finish = finish_any }

  unfoldable pub make_sink : Format → Writer → Outcome AnySink
  make_sink Format.stacks w = ok (of_stacks w)
  make_sink Format.folded w = ok (of_folded (record { w = w; counts = [] }))
  make_sink Format.pprof w = ok (of_pprof (PprofSink.open_sink (outside.service.wall 0) w))
  make_sink Format.top w = panic

  -- The writer for `--output`: `create` tells whether the file can be created.
  open_writer : (Text → Bool) → Option Text → Outcome Writer
  open_writer create none = ok (record { out = []; operations = 0 })
  open_writer create (some path) =
      if create path then ok (record { out = []; operations = 0 }) else err open_failed

  unfoldable pub build_sink : (Text → Bool) → Args → Outcome AnySink
  unfolding open_writer
  build_sink create args = build args.pyroscope_url
    where
      build : Option Text → Outcome AnySink
      build (some url) =
          ok (of_pyroscope (Pyroscope.new_sink outside.service (pyroscope_config args)))
      build none = bind (open_writer create args.output) λ w. make_sink args.format w
