-- ===== src/Sampler/Run.antt =====
-- src/sampler.rs, `Sampler::run` and `sample_once`: one process, sampled until the end of the run.
--
-- What happens around the sampler is the parameter `World`: the delays of the clock, what the n-th
-- load of the stop flag gives, which the signal handler sets, and whether /proc/PID/status exists
-- when the sampler looks for the n-th time. The sink is an interface. The loop runs on fuel.
pub mod Rounds
pub mod Laws
pub mod Safety
use php_fast_profile.Base.{
  ℕ, zero, suc, ◌+◌, ◌-◌, List, [], ◌∷◌, Option, none, some, Bool, true, false, ◌||◌, leb,
  if◌then◌else◌,
}
use php_fast_profile.Base.Act.{Outcome, ok, err, panic, Act, pure, raise, out_of_fuel, ◌>>=◌}
use php_fast_profile.Base.Text.{Text, codes}
use php_fast_profile.Zend.Frame.{Frame}
use php_fast_profile.Zend.Walker.{Walker, Walk, new_walker}
use php_fast_profile.Target.Capture.{Target, capture_stack, request_var}
use php_fast_profile.Output.Stacks.{SampleMeta}
use php_fast_profile.Output.Sink.{Sink}
use php_fast_profile.Sampler.Leaf.{leaf_is_any}
use php_fast_profile.Sampler.Pace.{Pace, look, pace}

-- The target, and the arguments that `Sampler::attach` keeps.
pub record Settings : Type 0 where
  pub target : Target
  pub capture_request_info : Bool
  pub max_depth : ℕ
  pub drop_leaf : List Text

pub record World : Type 0 where
  pub delay : ℕ → ℕ
  pub stop : ℕ → Bool
  pub exists : ℕ → Bool

-- The two mutable parts of a `Sampler`.
pub record Sampler (S : Type 0) : Type 0 where
  pub walker : Walker
  pub sink : S

-- What `run` keeps while it loops.
pub record Running (S : Type 0) : Type 0 where
  pub sampler : Sampler S
  pub pace : Pace
  pub loads : ℕ
  pub visits : ℕ
  pub taken : ℕ
  pub errors : ℕ

abbrev pub is_empty : List Frame → Bool
is_empty [] = true
is_empty (f ∷ frames) = false

-- The lines that make the `SampleMeta` of a sample.
unfoldable pub sample_meta : Bool → Target → Walk SampleMeta
sample_meta false t = pure (record { request_uri = none; request_method = none })
sample_meta true t = do
  uri ← request_var t (codes "REQUEST_URI")
  method ← request_var t (codes "REQUEST_METHOD")
  pure (record { request_uri = uri; request_method = method })

module _ {S A : Type 0} where
  abbrev pub on_target : Walk A → Act (Sampler S) A
  on_target m s = let (r, w) = m s.walker in (r, record s { walker = w })

  abbrev pub on_sink : Act S A → Act (Sampler S) A
  on_sink m s = let (r, k) = m s.sink in (r, record s { sink = k })

module _ {S : Type 0} (sink : Sink S) (settings : Settings) where
  -- A sample that is not dropped is written with its request.
  unfoldable pub write_frames : List Frame → Act (Sampler S) (Unit {0})
  write_frames frames =
      if is_empty frames || leaf_is_any frames settings.drop_leaf then pure tt else (do
        meta ← on_target (sample_meta settings.capture_request_info settings.target)
        on_sink (sink.write_sample frames meta))

  unfoldable pub sample_once : Act (Sampler S) (Unit {0})
  sample_once = do
    frames ← on_target (capture_stack settings.target settings.max_depth)
    write_frames frames

  module _ (world : World) where
    -- What follows a sample: `true` if the loop goes on.
    unfoldable pub count_result : Outcome (Unit {0}) → Act (Running S) Bool
    count_result (ok _) s = (ok true, record s { taken = s.taken + 1 })
    count_result (err e) s =
        (ok (world.exists s.visits), record s { errors = s.errors + 1; visits = s.visits + 1 })
    count_result panic s = (panic, s)

    unfoldable pub take_sample : ℕ → Act (Running S) Bool
    take_sample interval s =
        let (r, k) = sample_once s.sampler in
        count_result r (record s { sampler = k; pace = pace world.delay interval s.pace })

    -- `if let Some(d) = duration && start.elapsed() >= d { break }`
    unfoldable pub limited : ℕ → ℕ → Option ℕ → Act (Running S) Bool
    limited interval start none s = take_sample interval s
    limited interval start (some d) s =
        let p = look world.delay s.pace in
        let go = take_sample interval (record s { pace = p }) in
        if leb d (p.time - start) then (ok false, record s { pace = p }) else go

    unfoldable pub round : ℕ → ℕ → Option ℕ → Act (Running S) Bool
    round interval start duration s =
        let s' : Running S = record s { loads = s.loads + 1 } in
        let go = limited interval start duration s' in
        if world.stop s.loads then (ok false, s') else go

    -- A loop that goes on, or that has ended.
    unfoldable pub go_on : Bool → Act (Running S) Bool → Act (Running S) Bool
    go_on true rest = rest
    go_on false rest = pure false

    -- `while !stop.load(..) { .. }`: `true` if the fuel is spent and the loop would go on.
    unfoldable pub run_loop : ℕ → ℕ → ℕ → Option ℕ → Act (Running S) Bool
    run_loop zero interval start duration = pure true
    run_loop (suc fuel) interval start duration = do
      go ← round interval start duration
      go_on go (run_loop fuel interval start duration)

    -- The sink is finished when the loop has ended.
    unfoldable pub end_run : Bool → Act (Running S) (Unit {0})
    end_run true s = (err out_of_fuel, s)
    end_run false s = let (r, k) = on_sink sink.finish s.sampler in (r, record s { sampler = k })

    -- The two looks at the clock before the loop give `start` and the first `next`.
    unfoldable pub begin : Sampler S → Pace → Running S
    begin sampler p =
        let q = look world.delay p in
        record {
          sampler = sampler;
          pace = record q { next = q.time };
          loads = 0;
          visits = 0;
          taken = 0;
          errors = 0;
        }

    unfoldable pub run : ℕ → ℕ → Option ℕ → Pace → Sampler S → Outcome (Unit {0}) × Running S
    run fuel interval duration p sampler =
        let started = look world.delay p in
        let action : Act (Running S) (Unit {0}) =
          run_loop fuel interval started.time duration >>= end_run in
        action (begin sampler started)
