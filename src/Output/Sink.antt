-- ===== src/Output/Sink.antt =====
-- src/output/mod.rs, the trait `Sink`: what a sampler asks of an output with the state `S`.
use php_fast_profile.Base.{List, ◌≢◌}
use php_fast_profile.Base.Act.{panic, Act}
use php_fast_profile.Zend.Frame.{Frame}
use php_fast_profile.Output.Stacks.{SampleMeta}

pub record Sink (S : Type 0) : Type 0 where
  pub write_sample : List Frame → SampleMeta → Act S (Unit {0})
  pub finish : Act S (Unit {0})

-- A sink that does not panic while it is ready, and stays ready until it is finished.
pub record SinkHasNoPanic {S : Type 0} (sink : Sink S) (IsReady : S → Type 0) : Type 0 where
  pub write :
      (frames : List Frame) (meta : SampleMeta) (k : S)
      → IsReady k
      → ((sink.write_sample frames meta k).0 ≢ panic) × IsReady (sink.write_sample frames meta k).1
  pub finish : (k : S) → IsReady k → (sink.finish k).0 ≢ panic
