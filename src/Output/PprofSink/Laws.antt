-- ===== src/Output/PprofSink/Laws.antt =====
-- What the sink for pprof writes in a run.
use php_fast_profile.Base.{ℕ, List, [], ◌∷◌, ◌++◌, none, some, ◌≡◌, ◌≢◌, refl, sym}
use mathlib.Core.Path.{subst}
use php_fast_profile.Base.Act.{Outcome, ok, err, panic, ◌>>=◌}
use php_fast_profile.Zend.Frame.{Frame}
use php_fast_profile.Output.Writer.{Device, Writer, write, flush}
use php_fast_profile.Output.Writer.Laws.{
  Appends, Writes, bind-Writes, write-Writes, flush-Writes, Appends-ne-panic,
}
use php_fast_profile.Output.Pprof.{PprofBuilder, Profile, new, take_gzipped, encoded}
use php_fast_profile.Output.Pprof.Counts.{add_all, add_all-IsWellFormed, new-IsWellFormed}
use php_fast_profile.Output.Pprof.Window.{Describes, take_gzipped_lem}
use php_fast_profile.Output.PprofSink.{
  PprofSink, open_sink, write_sample, write_bytes, write_profile, finish,
}

write_file-Writes :
    (device : Device) (bytes : List ℕ)
    → Writes (bytes ++ []) (do _ ← write device bytes; flush device)
write_file-Writes device bytes =
    bind-Writes _ _ _ _ (write-Writes device bytes) (flush-Writes device)

encoded-ne-panic :
    (start now : ℕ) (b : PprofBuilder) (r : Outcome (List ℕ))
    → r ≢ panic
    → (encoded start now b r).0 ≢ panic
unfolding encoded
encoded-ne-panic start now b (ok bytes) h = λ e. cc
encoded-ne-panic start now b (err x) h = λ e. cc
encoded-ne-panic start now b panic h = λ e. h refl

write_profile-ne-panic :
    (device : Device) (r : Outcome (List ℕ × ℕ × ℕ)) (w : Writer) (sink : PprofSink)
    → r ≢ panic
    → sink.w ≡ some w
    → (write_profile device r sink).0 ≢ panic
unfolding write_profile write_bytes
write_profile-ne-panic device (ok (bytes, start, end)) w sink h e =
    rw e (Appends-ne-panic _ _ _ _ ((write_file-Writes device bytes).at w))
write_profile-ne-panic device (err x) w sink h e = λ p. cc
write_profile-ne-panic device panic w sink h e = λ p. h refl

-- A sink with its writer does not panic when it is finished.
pub finish-ne-panic :
    (device : Device) (encode : Profile → Outcome (List ℕ)) (now : ℕ) (w : Writer)
    (sink : PprofSink)
    → ((p : Profile) → encode p ≢ panic)
    → sink.w ≡ some w
    → (finish device encode now sink).0 ≢ panic
unfolding finish take_gzipped
finish-ne-panic device encode now w sink h e =
    write_profile-ne-panic device _ w _ (encoded-ne-panic _ _ _ _ (h _)) e

-- The samples of a run, oldest first.
pub write_all : List (List Frame) → PprofSink → PprofSink
write_all [] sink = sink
write_all (frames ∷ samples) sink = write_all samples (write_sample frames sink)

write_all-eq :
    (samples : List (List Frame)) (sink : PprofSink)
    → write_all samples sink ≡ record sink { builder = add_all samples sink.builder }
unfolding write_all write_sample add_all
write_all-eq [] sink = refl
write_all-eq (frames ∷ samples) sink = write_all-eq samples (write_sample frames sink)

-- What a run with the sink for pprof leaves on the device.
pub record IsProfileWritten (start now : ℕ) (bytes_of : Profile → List ℕ)
    (samples : List (List Frame)) (w : Writer) (r : Outcome (Unit {0}) × PprofSink) : Type 0 where
  pub profile : Profile
  pub describes : Describes now (add_all samples (new start)) profile
  pub file : Writer
  pub closed : (r.1.w ≡ none) × (r.1.dropped ≡ some file)
  pub appends : Appends (bytes_of profile ++ []) r.0 w file

written :
    (device : Device) (start now : ℕ) (bytes_of : Profile → List ℕ) (samples : List (List Frame))
    (w : Writer)
    → IsProfileWritten start now bytes_of samples w (
        finish device
          (λ p. ok (bytes_of p))
          now
          (record (open_sink start w) { builder = add_all samples (new start) }))
unfolding finish write_profile write_bytes open_sink
written device start now bytes_of samples w =
    let b = add_all samples (new start) in
    let sink : PprofSink = record { w = some w; dropped = none; builder = b } in
    let window =
      take_gzipped_lem bytes_of now b
        (add_all-IsWellFormed samples (new start) (new-IsWellFormed start)).0 in
    subst
      (λ (t : Outcome (List ℕ × ℕ × ℕ) × PprofBuilder).
        IsProfileWritten start now bytes_of samples w
          (write_profile device t.0 (record sink { builder = t.1 })))
      (sym window.result)
      (record {
        profile = window.profile;
        describes = window.describes;
        file = ((do _ ← write device (bytes_of window.profile); flush device) w).1;
        closed = (refl, refl);
        appends = (write_file-Writes device (bytes_of window.profile)).at w;
      })

-- A sink for pprof that is opened, given samples and finished writes one profile behind what its
-- writer had taken, whatever the device does, or a front part of it if it fails, and drops the
-- writer; it does not panic. The profile describes the window of those samples, from the opening to
-- the end, if the encoder does not fail.
pub finish-write_all :
    (device : Device) (start now : ℕ) (bytes_of : Profile → List ℕ) (samples : List (List Frame))
    (w : Writer)
    → IsProfileWritten start now bytes_of samples w
        (finish device (λ p. ok (bytes_of p)) now (write_all samples (open_sink start w)))
unfolding open_sink
finish-write_all device start now bytes_of samples w =
    subst
      (λ sink.
        IsProfileWritten start now bytes_of samples w
          (finish device (λ p. ok (bytes_of p)) now sink))
      (sym (write_all-eq samples (open_sink start w))) (written device start now bytes_of samples w)
