-- ===== src/Output/Build/Laws.antt =====
-- No sink panics while a run writes to it, nor when the run finishes it.
use php_fast_profile.Base.{List, [], Option, none, some, Bool, ◌≡◌, ◌≢◌, refl}
use mathlib.Core.Path.{subst}
use php_fast_profile.Base.Act.{Outcome, ok, err, panic, bind}
use php_fast_profile.Base.Text.{Text}
use php_fast_profile.Zend.Frame.{Frame}
use php_fast_profile.Arguments.{Args, Format, stacks, folded, pprof, top}
use php_fast_profile.Output.Writer.{Writer}
use php_fast_profile.Output.Writer.Laws.{Appends-ne-panic, flush-Writes}
use php_fast_profile.Output.Stacks
use php_fast_profile.Output.Stacks.{SampleMeta}
use php_fast_profile.Output.Stacks.Laws.{write_sample-Appends}
use php_fast_profile.Output.Folded.Laws as FoldedLaws
use php_fast_profile.Output.PprofSink
use php_fast_profile.Output.PprofSink.{PprofSink}
use php_fast_profile.Output.PprofSink.Laws as PprofLaws
use php_fast_profile.Output.Pyroscope.Laws.{HasNoPanic, pyroscope-ok}
use php_fast_profile.Output.Sink.{SinkHasNoPanic}
use php_fast_profile.Output.Build.{
  AnySink, of_stacks, of_folded, of_pprof, of_pyroscope, Outside, write_any, finish_any, any_sink,
  make_sink, build_sink,
}

-- The sink for pprof is ready until it is finished, the others always.
pub IsReady : AnySink → Type 0
IsReady (of_stacks w) = Unit
IsReady (of_folded s) = Unit
IsReady (of_pprof s) = (w : Writer) × (s.w ≡ some w)
IsReady (of_pyroscope s) = Unit

ok-ne-panic : (r : Outcome (Unit {0})) → r ≡ ok tt → r ≢ panic
ok-ne-panic r e p = cc (e, p)

module _ (outside : Outside) (calm : HasNoPanic outside.service) where
  write_any-calm :
      (frames : List Frame) (meta : SampleMeta) (k : AnySink)
      → IsReady k
      → ((write_any outside frames meta k).0 ≢ panic) × IsReady (write_any outside frames meta k).1
  unfolding write_any IsReady PprofSink.write_sample
  write_any-calm frames meta (of_stacks w) h =
      (Appends-ne-panic _ _ _ _ (write_sample-Appends outside.device frames meta w), tt)
  write_any-calm frames meta (of_folded s) h = ((λ e. cc), tt)
  write_any-calm frames meta (of_pprof s) h = ((λ e. cc), h)
  write_any-calm frames meta (of_pyroscope s) h =
      (ok-ne-panic _ (pyroscope-ok outside.service frames s calm).0, tt)

  finish_any-calm : (k : AnySink) → IsReady k → (finish_any outside k).0 ≢ panic
  unfolding finish_any IsReady Stacks.finish
  finish_any-calm (of_stacks w) h = Appends-ne-panic _ _ _ _ ((flush-Writes outside.device).at w)
  finish_any-calm (of_folded s) h = FoldedLaws.finish-ne-panic outside.device outside.order s
  finish_any-calm (of_pprof s) (w, e) =
      PprofLaws.finish-ne-panic outside.device outside.service.encode outside.end w s calm.encode e
  finish_any-calm (of_pyroscope s) h = ok-ne-panic _ (pyroscope-ok outside.service [] s calm).1

  -- The four sinks as one.
  pub any_sink-HasNoPanic : SinkHasNoPanic (any_sink outside) IsReady
  any_sink-HasNoPanic = record { write = write_any-calm; finish = finish_any-calm }

  GivesReady : Outcome AnySink → Type 0
  GivesReady (ok sink) = IsReady sink
  GivesReady (err e) = Unit
  GivesReady panic = Unit

  make_sink-GivesReady : (format : Format) (w : Writer) → GivesReady (make_sink outside format w)
  unfolding make_sink GivesReady IsReady PprofSink.open_sink
  make_sink-GivesReady stacks w = tt
  make_sink-GivesReady folded w = tt
  make_sink-GivesReady pprof w = (w, refl)
  make_sink-GivesReady top w = tt

  open_sink-GivesReady :
      (format : Format) (r : Outcome Writer) → GivesReady (bind r λ w. make_sink outside format w)
  unfolding GivesReady
  open_sink-GivesReady format (ok w) = make_sink-GivesReady format w
  open_sink-GivesReady format (err e) = tt
  open_sink-GivesReady format panic = tt

  build_sink-GivesReady :
      (create : Text → Bool) (args : Args) → GivesReady (build_sink outside create args)
  unfolding build_sink
  build_sink-GivesReady create args = built args.pyroscope_url refl
    where
      built :
          (url : Option Text)
          → args.pyroscope_url ≡ url
          → GivesReady (build_sink outside create args)
      built none e = rw e (open_sink-GivesReady args.format _)
      built (some url) e = rw e (unfold GivesReady IsReady in tt)

  pub build_sink-IsReady :
      (create : Text → Bool) (args : Args) (sink : AnySink)
      → build_sink outside create args ≡ ok sink
      → IsReady sink
  unfolding GivesReady
  build_sink-IsReady create args sink e =
      subst (λ r. GivesReady r) e (build_sink-GivesReady create args)
