-- ===== src/Sampler/Multi/Threads/Calm.antt =====
-- A run of `run_multi` whose sink does not panic does not either.
use php_fast_profile.Base.{
  ℕ, List, [], ◌∷◌, Option, Bool, true, false, ◌||◌, ◌≡◌, ◌≢◌, refl, sym, ◌∙◌, if◌then◌else◌,
}
use mathlib.Core.Path.{subst}
use php_fast_profile.Base.Act.{Outcome, ok, err, panic}
use php_fast_profile.Output.Sink.{SinkHasNoPanic}
use php_fast_profile.Sampler.Worker.{Worker, SampleMsg}
use php_fast_profile.Sampler.Multi.{
  System, Phase, annotate, after_write, receive, main_receive, rediscover, main_timers, drain,
  finish_multi, start_multi,
}
use php_fast_profile.Sampler.Multi.Threads.{Setup, Step, Reach, after_turn}

abbrev is_returned : Phase → Bool
is_returned (Phase.returned r) = true
is_returned phase = false

module _ {S : Type 0} (setup : Setup S) (IsReady : S → Type 0)
    (calm : SinkHasNoPanic setup.sink IsReady) where
  -- The sink is ready as long as the run goes on, and the run has not panicked.
  pub data IsCalm (s : System S) : Type 0 where
    going : is_returned s.phase ≡ false → IsReady s.sink → IsCalm s
    ended : (r : Outcome (Unit {0})) → s.phase ≡ Phase.returned r → r ≢ panic → IsCalm s

  going_on : (s : System S) → is_returned s.phase ≡ false → IsCalm s → IsReady s.sink
  going_on s p (going q ready) = ready
  going_on s p (ended r q np) = cc (p, q)

  after_write-IsCalm :
      (next : Phase) (o : Outcome (Unit {0}) × S) (s : System S)
      → is_returned next ≡ false
      → (o.0 ≢ panic) × IsReady o.1
      → IsCalm (after_write next o s)
  unfolding after_write
  after_write-IsCalm next (ok _, k) s p (np, ready) = going p ready
  after_write-IsCalm next (err e, k) s p (np, ready) = going p ready
  after_write-IsCalm next (panic, k) s p (np, ready) = absurd (np refl)

  receive-IsCalm :
      (channel : List SampleMsg) (s : System S)
      → IsReady s.sink
      → IsCalm (receive setup.sink channel s)
  unfolding receive
  receive-IsCalm [] s ready = going refl ready
  receive-IsCalm (msg ∷ rest) s ready =
      after_write-IsCalm Phase.timing _ _ refl (calm.write msg.frames (annotate msg) s.sink ready)

  main_receive-IsCalm :
      (b : Bool) (s : System S)
      → IsReady s.sink
      → IsCalm (if b then record s { phase = Phase.draining } else receive setup.sink s.channel s)
  main_receive-IsCalm true s ready = going refl ready
  main_receive-IsCalm false s ready = receive-IsCalm s.channel s ready

  drain-IsCalm :
      (channel : List SampleMsg) (s : System S)
      → IsReady s.sink
      → IsCalm (drain setup.sink channel s)
  unfolding drain
  drain-IsCalm [] s ready = going refl ready
  drain-IsCalm (msg ∷ rest) s ready =
      after_write-IsCalm Phase.draining _ _ refl (calm.write msg.frames msg.meta s.sink ready)

  main_timers-IsCalm :
      (spawn : ℕ → Option Worker) (due : Bool) (found : Outcome (List ℕ)) (s : System S)
      → found ≢ panic
      → IsReady s.sink
      → IsCalm (main_timers spawn due found s)
  unfolding main_timers rediscover
  main_timers-IsCalm spawn false found s np ready = going refl ready
  main_timers-IsCalm spawn true (ok pids) s np ready = going refl ready
  main_timers-IsCalm spawn true (err e) s np ready = going refl ready
  main_timers-IsCalm spawn true panic s np ready = absurd (np refl)

  after_turn-IsCalm : (s t : System S) → t.phase ≡ s.phase → t.sink ≡ s.sink → IsCalm s → IsCalm t
  after_turn-IsCalm s t p k (going q ready) =
      going (cc (p, q)) (subst (λ k. IsReady k) (sym k) ready)
  after_turn-IsCalm s t p k (ended r q np) = ended r (p ∙ q) np

  step-IsCalm : (new : List SampleMsg) (s t : System S) → Step setup s new t → IsCalm s → IsCalm t
  unfolding after_turn main_receive finish_multi
  step-IsCalm new s t (Step.work pid w stop alive e f g) h = after_turn-IsCalm s _ refl refl h
  step-IsCalm new s t (Step.receive stop over p) h =
      main_receive-IsCalm (stop || over) s (going_on s (cc p) h)
  step-IsCalm new s t (Step.timers spawn due found np p) h =
      main_timers-IsCalm spawn due found s np (going_on s (cc p) h)
  step-IsCalm new s t (Step.drain_one p) h = drain-IsCalm s.channel s (going_on s (cc p) h)
  step-IsCalm new s t (Step.finish p all) h =
      ended (setup.sink.finish s.sink).0 refl (calm.finish s.sink (going_on s (cc p) h))

  pub Reach-IsCalm :
      {s₀ s : System S} {log : List SampleMsg} → Reach setup s₀ log s → IsCalm s₀ → IsCalm s
  Reach-IsCalm Reach.start h = h
  Reach-IsCalm (Reach.later r step) h = step-IsCalm _ _ _ step (Reach-IsCalm r h)

  pub start-IsCalm :
      (k₀ : S) (spawn : ℕ → Option Worker) (pids : List ℕ)
      → IsReady k₀
      → IsCalm (start_multi k₀ spawn (ok pids))
  unfolding start_multi
  start-IsCalm k₀ spawn pids ready = going refl ready
