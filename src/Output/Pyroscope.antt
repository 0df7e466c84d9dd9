-- ===== src/Output/Pyroscope.antt =====
-- src/output/pyroscope_sink.rs: a profile for every window, pushed to a server.
--
-- A request is the list of the calls that build it, in their order; what `ureq` makes of them, and
-- the server's answer to the n-th request, are the parameter `post`. The two clocks, monotone and
-- wall, answer the n-th look; times are nanoseconds, and the interval of the configuration seconds.
pub mod Request
pub mod Laws
use php_fast_profile.Base.{
  ℕ, ◌+◌, ◌-◌, ◌*◌, ◌/◌, List, [], ◌∷◌, ◌++◌, map, Option, none, some, Bool, true, false, leb,
  if◌then◌else◌, length,
}
use php_fast_profile.Base.Act.{Outcome, ok, err, panic, Act}
use php_fast_profile.Base.Text.{Text, codes, to_string}
use php_fast_profile.Zend.Frame.{Frame}
use php_fast_profile.Output.Config.{PyroscopeConfig}
use php_fast_profile.Output.Pprof.{PprofBuilder, Profile, new, add, is_empty, take_gzipped}

pub data RequestCall : Type 0 where
  post : (url : Text) → RequestCall
  query : (name value : Text) → RequestCall
  set : (name value : Text) → RequestCall
  send_bytes : List ℕ → RequestCall

pub record Service : Type 0 where
  pub encode : Profile → Outcome (List ℕ)
  pub answer : ℕ → List RequestCall → Outcome (Unit {0})
  pub instant : ℕ → ℕ
  pub wall : ℕ → ℕ

pub record PyroscopeSink : Type 0 where
  pub cfg : PyroscopeConfig
  pub builder : PprofBuilder
  pub last_push : ℕ
  -- How often each clock was looked at, and the requests sent, oldest first.
  pub instants : ℕ
  pub walls : ℕ
  pub requests : List (List RequestCall)

abbrev pub seconds : ℕ
seconds = 1_000_000_000

bearer : Option Text → List RequestCall
bearer none = []
bearer (some token) = RequestCall.set (codes "Authorization") (codes "Bearer " ++ token) ∷ []

tenant : Option Text → List RequestCall
tenant none = []
tenant (some id) = RequestCall.set (codes "X-Scope-OrgID") id ∷ []

-- The calls of `try_push`, for the profile's bytes and its window.
unfoldable pub ingest_request : PyroscopeConfig → List ℕ → ℕ → ℕ → List RequestCall
unfolding bearer tenant
ingest_request cfg body from until =
    RequestCall.post (cfg.url ++ codes "/ingest")
    ∷ RequestCall.query (codes "name") cfg.name
    ∷ RequestCall.query (codes "from") (to_string (from / 1_000_000_000))
    ∷ RequestCall.query (codes "until") (to_string (until / 1_000_000_000))
    ∷ RequestCall.query (codes "format") (codes "pprof")
    ∷ RequestCall.query (codes "spyName") (codes "pfp")
    ∷ RequestCall.set (codes "Content-Type") (codes "application/octet-stream")
    ∷ (bearer cfg.auth_token
        ++ (tenant cfg.tenant_id
            ++ (map (λ h. RequestCall.set h.0 h.1) cfg.headers
                ++ (RequestCall.send_bytes body ∷ []))))

module _ (service : Service) where
  -- `PyroscopeSink::new`
  unfoldable pub new_sink : PyroscopeConfig → PyroscopeSink
  new_sink cfg = record {
    cfg = cfg;
    builder = new (service.wall 0);
    last_push = service.instant 0;
    instants = 1;
    walls = 1;
    requests = [];
  }

  unfoldable pub sent_request : List RequestCall → Act PyroscopeSink (Unit {0})
  sent_request calls sink = (
    service.answer (length sink.requests) calls,
    record sink { requests = sink.requests ++ (calls ∷ []) },
  )

  unfoldable pub send_profile : Outcome (List ℕ × ℕ × ℕ) → Act PyroscopeSink (Unit {0})
  send_profile (ok (body, from, until)) sink =
      sent_request (ingest_request sink.cfg body from until) sink
  send_profile (err e) sink = (err e, sink)
  send_profile panic sink = (panic, sink)

  unfoldable pub try_push : Act PyroscopeSink (Unit {0})
  try_push sink =
      let (r, b) = take_gzipped service.encode (service.wall sink.walls) sink.builder in
      send_profile r (record sink { builder = b; walls = sink.walls + 1 })

  -- `self.last_push = Instant::now()`
  unfoldable pub stamp : PyroscopeSink → PyroscopeSink
  stamp sink = record sink {
    last_push = service.instant sink.instants;
    instants = sink.instants + 1;
  }

  -- The `match` on the push: an error is logged.
  unfoldable pub swallow : Outcome (Unit {0}) × PyroscopeSink → Outcome (Unit {0}) × PyroscopeSink
  swallow (panic, sink) = (panic, sink)
  swallow (ok _, sink) = (ok tt, stamp sink)
  swallow (err e, sink) = (ok tt, stamp sink)

  unfoldable pub push : Act PyroscopeSink (Unit {0})
  push sink = if is_empty sink.builder then (ok tt, stamp sink) else swallow (try_push sink)

  unfoldable pub write_sample : List Frame → Act PyroscopeSink (Unit {0})
  write_sample frames sink =
      let added : PyroscopeSink = record sink {
        builder = add frames sink.builder;
        instants = sink.instants + 1;
      } in
      if leb (sink.cfg.push_interval * seconds) (service.instant sink.instants - sink.last_push)
      then push added
      else (ok tt, added)

  unfoldable pub finish : Act PyroscopeSink (Unit {0})
  finish = push
