-- ===== src/Output/Pyroscope/Laws.antt =====
-- What a push sends, and that no failure of the service stops the profiler.
use php_fast_profile.Base.{
  ℕ, ◌+◌, List, [], ◌∷◌, ◌++◌, Bool, true, false, ◌≡◌, ◌≢◌, refl, ap, ◌∙◌, fun_ext, if◌then◌else◌,
}
use php_fast_profile.Base.Act.{Outcome, ok, err, panic}
use php_fast_profile.Zend.Frame.{Frame}
use php_fast_profile.Output.Pprof.{PprofBuilder, Profile, new, is_empty, take_gzipped, encoded}
use php_fast_profile.Output.Pprof.Invariant.{IsWellFormed}
use php_fast_profile.Output.Pprof.Window.{Describes, take_gzipped_lem}
use php_fast_profile.Output.Pyroscope.Request.{Ingests, ingest_request-Ingests}
use php_fast_profile.Output.Pyroscope.{
  Service, PyroscopeSink, RequestCall, ingest_request, sent_request, send_profile, try_push, stamp,
  swallow, push, write_sample, finish,
}

-- The encoder and the service fail with an error at most.
pub record HasNoPanic (service : Service) : Type 0 where
  pub encode : (p : Profile) → service.encode p ≢ panic
  pub answer : (n : ℕ) (calls : List RequestCall) → service.answer n calls ≢ panic

module _ (service : Service) (calm : HasNoPanic service) where
  encoded-calm :
      (start now : ℕ) (b : PprofBuilder) (r : Outcome (List ℕ))
      → r ≢ panic
      → (encoded start now b r).0 ≢ panic
  unfolding encoded
  encoded-calm start now b (ok bytes) h = λ e. cc
  encoded-calm start now b (err x) h = λ e. cc
  encoded-calm start now b panic h = λ e. h refl

  send_profile-calm :
      (r : Outcome (List ℕ × ℕ × ℕ)) (sink : PyroscopeSink)
      → r ≢ panic
      → (send_profile service r sink).0 ≢ panic
  unfolding send_profile sent_request
  send_profile-calm (ok (body, from, until)) sink h = calm.answer _ _
  send_profile-calm (err x) sink h = λ e. cc
  send_profile-calm panic sink h = λ e. h refl

  swallow-ok :
      (r : Outcome (Unit {0})) (sink : PyroscopeSink)
      → r ≢ panic
      → (swallow service (r, sink)).0 ≡ ok tt
  unfolding swallow
  swallow-ok (ok _) sink h = refl
  swallow-ok (err e) sink h = refl
  swallow-ok panic sink h = absurd (h refl)

  push-ok : (sink : PyroscopeSink) → (push service sink).0 ≡ ok tt
  unfolding push try_push take_gzipped
  push-ok sink =
      unless_empty (is_empty sink.builder) _
        (swallow-ok _ _ (send_profile-calm _ _ (encoded-calm _ _ _ _ (calm.encode _))))
    where
      unless_empty :
          (b : Bool) (o : Outcome (Unit {0}) × PyroscopeSink)
          → o.0 ≡ ok tt
          → (if b then (ok tt, stamp service sink) else o).0 ≡ ok tt
      unless_empty true o h = refl
      unless_empty false o h = h

  if_due : (b : Bool) (s : PyroscopeSink) → (if b then push service s else (ok tt, s)).0 ≡ ok tt
  if_due true s = push-ok s
  if_due false s = refl

-- Whatever the server answers, and if the encoding fails too, writing a sample and finishing succeed.
pub pyroscope-ok :
    (service : Service) (frames : List Frame) (sink : PyroscopeSink)
    → HasNoPanic service
    → ((write_sample service frames sink).0 ≡ ok tt) × ((finish service sink).0 ≡ ok tt)
unfolding write_sample finish
pyroscope-ok service frames sink calm = (if_due service calm _ _, push-ok service calm sink)

-- A push that sends one request for the window of `b`, and starts the next window.
pub record SendsWindow (service : Service) (bytes_of : Profile → List ℕ)
    (sink after : PyroscopeSink) : Type 0 where
  pub profile : Profile
  pub describes : Describes (service.wall sink.walls) sink.builder profile
  pub calls : List RequestCall
  pub ingests :
      Ingests sink.cfg
        (bytes_of profile)
        sink.builder.window_start_nanos
        (service.wall sink.walls)
        calls
  pub requests : after.requests ≡ sink.requests ++ (calls ∷ [])
  pub builder : after.builder ≡ new (service.wall sink.walls)
  pub last_push : after.last_push ≡ service.instant sink.instants

swallow-state :
    (service : Service) (r : Outcome (Unit {0})) (sink : PyroscopeSink)
    → r ≢ panic
    → (swallow service (r, sink)).1 ≡ stamp service sink
unfolding swallow
swallow-state service (ok _) sink h = refl
swallow-state service (err e) sink h = refl
swallow-state service panic sink h = absurd (h refl)

after_push : Service → (Profile → List ℕ) → Profile → PyroscopeSink → PyroscopeSink
after_push service bytes_of profile sink =
    let now = service.wall sink.walls in
    record sink {
      builder = new now;
      last_push = service.instant sink.instants;
      instants = sink.instants + 1;
      walls = sink.walls + 1;
      requests =
          sink.requests
          ++ (ingest_request sink.cfg (bytes_of profile) sink.builder.window_start_nanos now ∷ []);
    }

push-eq :
    (service : Service) (bytes_of : Profile → List ℕ) (profile : Profile) (sink : PyroscopeSink)
    → HasNoPanic service
    → is_empty sink.builder ≡ false
    → take_gzipped service.encode (service.wall sink.walls) sink.builder ≡ (
      ok (bytes_of profile, sink.builder.window_start_nanos, service.wall sink.walls),
      new (service.wall sink.walls),
    )
    → (push service sink).1 ≡ after_push service bytes_of profile sink
unfolding push try_push send_profile sent_request stamp after_push
push-eq service bytes_of profile sink calm full taken =
    rw (full, taken) (swallow-state service _ _ (calm.answer _ _))

-- With a well-formed builder, and an encoder and a server that fail with errors only, if the window
-- has samples and they are encoded, a push sends one request: its body is the encoded profile of the
-- window, its target `/ingest` of the configured URL, its parameters the application's name, the
-- window's two ends in seconds, the format and the profiler's name, and its headers the content
-- type, the configured token and tenant, and the further configured ones. Whatever the server
-- answers, the next window starts empty at the window's end, and the time of the push is noted.
pub push_lem :
    (service : Service) (bytes_of : Profile → List ℕ) (sink : PyroscopeSink)
    → HasNoPanic service
    → ((p : Profile) → service.encode p ≡ ok (bytes_of p))
    → IsWellFormed sink.builder
    → is_empty sink.builder ≡ false
    → SendsWindow service bytes_of sink (push service sink).1
unfolding after_push
push_lem service bytes_of sink calm encodes well full =
    let window = take_gzipped_lem bytes_of (service.wall sink.walls) sink.builder well in
    let pushed = push-eq service bytes_of window.profile sink calm full (
      ap (λ f. take_gzipped f (service.wall sink.walls) sink.builder) (fun_ext encodes)
      ∙ window.result) in
    record {
      profile = window.profile;
      describes = window.describes;
      calls = _;
      ingests = ingest_request-Ingests sink.cfg _ _ _;
      requests = ap (λ s. s.requests) pushed;
      builder = ap (λ s. s.builder) pushed;
      last_push = ap (λ s. s.last_push) pushed;
    }
