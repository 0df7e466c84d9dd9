-- ===== src/Output/PprofSink.antt =====
-- src/output/pprof_sink.rs, `PprofSink`: one profile, written when the run ends.
--
-- `finish` drops the writer; the field `dropped` keeps it as `finish` left it.
pub mod Laws
use php_fast_profile.Base.{ℕ, List, Option, none, some}
use php_fast_profile.Base.Act.{Outcome, ok, err, panic, Act, ◌>>=◌}
use php_fast_profile.Zend.Frame.{Frame}
use php_fast_profile.Output.Writer.{Device, Writer, write, flush}
use php_fast_profile.Output.Pprof.{PprofBuilder, Profile, new, add, take_gzipped}

pub record PprofSink : Type 0 where
  pub w : Option Writer
  pub dropped : Option Writer
  pub builder : PprofBuilder

-- `PprofSink::new`, at the time `now`.
unfoldable pub open_sink : ℕ → Writer → PprofSink
open_sink now w = record { w = some w; dropped = none; builder = new now }

unfoldable pub write_sample : List Frame → PprofSink → PprofSink
write_sample frames sink = record sink { builder = add frames sink.builder }

write_bytes : Device → List ℕ → Option Writer → Act PprofSink (Unit {0})
write_bytes device bytes none sink = (panic, sink)
write_bytes device bytes (some w) sink =
    let action : Act Writer (Unit {0}) = (do _ ← write device bytes; flush device) in
    let (r, w') = action w in (r, record sink { w = none; dropped = some w' })

write_profile : Device → Outcome (List ℕ × ℕ × ℕ) → Act PprofSink (Unit {0})
unfolding write_bytes
write_profile device (ok (bytes, start, end)) sink = write_bytes device bytes sink.w sink
write_profile device (err e) sink = (err e, sink)
write_profile device panic sink = (panic, sink)

-- `PprofSink::finish`, at the time `now`.
unfoldable pub finish : Device → (Profile → Outcome (List ℕ)) → ℕ → Act PprofSink (Unit {0})
unfolding write_profile
finish device encode now sink =
    let (r, b) = take_gzipped encode now sink.builder in
    write_profile device r (record sink { builder = b })
