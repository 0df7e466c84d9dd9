-- ===== src/Sampler/Multi/Threads/Queue.antt =====
-- What reaches the sink of `run_multi`.
use php_fast_profile.Base.{
  ℕ, List, [], ◌∷◌, ◌++◌, Option, Bool, true, false, ◌||◌, ◌≡◌, refl, ◌⊎◌, inl, inr, sym, ap,
  if◌then◌else◌,
}
use php_fast_profile.Base.Act.{Outcome, ok, err, panic}
use php_fast_profile.Sampler.Worker.{Worker, SampleMsg, Turn}
use php_fast_profile.Sampler.Multi.{
  System, Phase, annotate, after_write, receive, main_receive, rediscover, main_timers, drain,
  finish_multi, start_multi,
}
use php_fast_profile.Sampler.Multi.Threads.{Setup, Step, Reach, after_turn, sent}
use php_fast_profile.Sampler.Multi.Threads.Fed.{
  IsFed, IsFed-work, IsFed-main, IsFed-drained, IsFed-same, IsFed-start,
}

module _ {S : Type 0} (setup : Setup S) (k₀ : S) where
  pub data IsDelivered (log : List SampleMsg) (s : System S) : Type 0 where
    looping :
        (main : List SampleMsg)
        → (s.phase ≡ Phase.receiving) ⊎ (s.phase ≡ Phase.timing)
        → IsFed setup k₀ log main [] s.sink s
        → IsDelivered log s
    closing :
        (main drained : List SampleMsg)
        → (s.phase ≡ Phase.draining) ⊎ (s.phase ≡ Phase.joining)
        → IsFed setup k₀ log main drained s.sink s
        → IsDelivered log s
    finished :
        (main drained : List SampleMsg) (k : S)
        → s.phase ≡ Phase.returned (setup.sink.finish k).0
        → s.sink ≡ (setup.sink.finish k).1
        → IsFed setup k₀ log main drained k s
        → IsDelivered log s
    panicked : s.phase ≡ Phase.returned panic → IsDelivered log s

  written_main :
      (log main rest : List SampleMsg) (msg : SampleMsg) (s : System S) (o : Outcome (Unit {0}) × S)
      → s.channel ≡ msg ∷ rest
      → setup.sink.write_sample msg.frames (annotate msg) s.sink ≡ o
      → IsFed setup k₀ log main [] s.sink s
      → IsDelivered (log ++ []) (after_write Phase.timing o (record s { channel = rest }))
  unfolding after_write
  written_main log main rest msg s (ok _, k) e₁ e₂ h =
      looping (main ++ (msg ∷ [])) (inr refl)
        (IsFed-main setup k₀ log main rest msg s _ e₁ refl refl (sym (ap (λ o. o.1) e₂)) h)
  written_main log main rest msg s (err x, k) e₁ e₂ h =
      looping (main ++ (msg ∷ [])) (inr refl)
        (IsFed-main setup k₀ log main rest msg s _ e₁ refl refl (sym (ap (λ o. o.1) e₂)) h)
  written_main log main rest msg s (panic, k) e₁ e₂ h = panicked refl

  written_drained :
      (log main drained rest : List SampleMsg) (msg : SampleMsg) (s : System S)
      (o : Outcome (Unit {0}) × S)
      → s.channel ≡ msg ∷ rest
      → setup.sink.write_sample msg.frames msg.meta s.sink ≡ o
      → IsFed setup k₀ log main drained s.sink s
      → IsDelivered (log ++ []) (after_write Phase.draining o (record s { channel = rest }))
  unfolding after_write
  written_drained log main drained rest msg s (ok _, k) e₁ e₂ h =
      closing main (drained ++ (msg ∷ [])) (inl refl) (
        IsFed-drained setup k₀ log main drained rest msg s _ e₁ refl refl (sym (ap (λ o. o.1) e₂))
          h)
  written_drained log main drained rest msg s (err x, k) e₁ e₂ h =
      closing main (drained ++ (msg ∷ [])) (inl refl) (
        IsFed-drained setup k₀ log main drained rest msg s _ e₁ refl refl (sym (ap (λ o. o.1) e₂))
          h)
  written_drained log main drained rest msg s (panic, k) e₁ e₂ h = panicked refl

  received :
      (log main channel : List SampleMsg) (s : System S)
      → s.channel ≡ channel
      → IsFed setup k₀ log main [] s.sink s
      → IsDelivered (log ++ []) (receive setup.sink channel s)
  unfolding receive
  received log main [] s e h =
      looping main (inr refl) (IsFed-same setup k₀ log main [] s.sink s _ refl refl h)
  received log main (msg ∷ rest) s e h = written_main log main rest msg s _ e refl h

  main_received :
      (log main : List SampleMsg) (b : Bool) (s : System S)
      → IsFed setup k₀ log main [] s.sink s
      → IsDelivered
          (log ++ [])
          (if b then record s { phase = Phase.draining } else receive setup.sink s.channel s)
  main_received log main true s h =
      closing main [] (inl refl) (IsFed-same setup k₀ log main [] s.sink s _ refl refl h)
  main_received log main false s h = received log main s.channel s refl h

  drained_one :
      (log main drained channel : List SampleMsg) (s : System S)
      → s.channel ≡ channel
      → IsFed setup k₀ log main drained s.sink s
      → IsDelivered (log ++ []) (drain setup.sink channel s)
  unfolding drain
  drained_one log main drained [] s e h =
      closing main drained (inr refl) (IsFed-same setup k₀ log main drained s.sink s _ refl refl h)
  drained_one log main drained (msg ∷ rest) s e h =
      written_drained log main drained rest msg s _ e refl h

  timed :
      (log main : List SampleMsg) (spawn : ℕ → Option Worker) (due : Bool)
      (found : Outcome (List ℕ)) (s : System S)
      → IsFed setup k₀ log main [] s.sink s
      → IsDelivered (log ++ []) (main_timers spawn due found s)
  unfolding main_timers rediscover
  timed log main spawn false found s h =
      looping main (inl refl) (IsFed-same setup k₀ log main [] s.sink s _ refl refl h)
  timed log main spawn true (ok pids) s h =
      looping main (inl refl) (IsFed-same setup k₀ log main [] s.sink s _ refl refl h)
  timed log main spawn true (err e) s h =
      looping main (inl refl) (IsFed-same setup k₀ log main [] s.sink s _ refl refl h)
  timed log main spawn true panic s h = panicked refl

  -- A message sent waits behind the others, whatever the main thread does.
  worked :
      (log : List SampleMsg) (pid : ℕ) (turn : Turn SampleMsg × Worker) (s : System S)
      → IsDelivered log s
      → IsDelivered (log ++ sent turn.0) (after_turn setup pid turn s)
  unfolding after_turn
  worked log pid turn s (looping main p h) =
      looping main p (IsFed-work setup k₀ log main [] [] s.sink pid turn s h)
  worked log pid turn s (closing main drained p h) =
      closing main drained p (IsFed-work setup k₀ log main drained [] s.sink pid turn s h)
  worked log pid turn s (finished main drained k p e h) =
      finished main drained k p e (IsFed-work setup k₀ log main drained [] k pid turn s h)
  worked log pid turn s (panicked p) = panicked p

  stepped :
      (log new : List SampleMsg) (s t : System S)
      → Step setup s new t
      → IsDelivered log s
      → IsDelivered (log ++ new) t
  unfolding main_receive finish_multi
  stepped log new s t (Step.work pid w stop alive e f g) d = worked log pid _ s d
  stepped log new s t (Step.receive stop over p) (looping main q h) =
      main_received log main (stop || over) s h
  stepped log new s t (Step.receive stop over p) (closing main drained (inl q) h) = cc
  stepped log new s t (Step.receive stop over p) (closing main drained (inr q) h) = cc
  stepped log new s t (Step.receive stop over p) (finished main drained k q e h) = cc
  stepped log new s t (Step.receive stop over p) (panicked q) = cc
  stepped log new s t (Step.timers spawn due found np p) (looping main q h) =
      timed log main spawn due found s h
  stepped log new s t (Step.timers spawn due found np p) (closing main drained (inl q) h) = cc
  stepped log new s t (Step.timers spawn due found np p) (closing main drained (inr q) h) = cc
  stepped log new s t (Step.timers spawn due found np p) (finished main drained k q e h) = cc
  stepped log new s t (Step.timers spawn due found np p) (panicked q) = cc
  stepped log new s t (Step.drain_one p) (looping main (inl q) h) = cc
  stepped log new s t (Step.drain_one p) (looping main (inr q) h) = cc
  stepped log new s t (Step.drain_one p) (closing main drained q h) =
      drained_one log main drained s.channel s refl h
  stepped log new s t (Step.drain_one p) (finished main drained k q e h) = cc
  stepped log new s t (Step.drain_one p) (panicked q) = cc
  stepped log new s t (Step.finish p all) (looping main (inl q) h) = cc
  stepped log new s t (Step.finish p all) (looping main (inr q) h) = cc
  stepped log new s t (Step.finish p all) (closing main drained q h) =
      finished main drained s.sink refl refl
        (IsFed-same setup k₀ log main drained s.sink s _ refl refl h)
  stepped log new s t (Step.finish p all) (finished main drained k q e h) = cc
  stepped log new s t (Step.finish p all) (panicked q) = cc

reached :
    {S : Type 0} (setup : Setup S) (k₀ : S) (spawn : ℕ → Option Worker) (pids : List ℕ)
    (log : List SampleMsg) (s : System S)
    → Reach setup (start_multi k₀ spawn (ok pids)) log s
    → IsDelivered setup k₀ log s
unfolding start_multi
reached setup k₀ spawn pids log s Reach.start =
    IsDelivered.looping [] (inl refl) (IsFed-start setup k₀ _ refl refl refl)
reached setup k₀ spawn pids log t (Reach.later {s = s} {log = log'} {new = new} r step) =
    stepped setup k₀ log' new s t step (reached setup k₀ spawn pids log' s r)

-- At every moment of a run of `run_multi`, and however its threads interleave, the messages sent so
-- far are those that the main loop has written, then those that the teardown has, then those in
-- the channel. What was written went to the sink in that order, with the pid in the URI in the loop
-- and without it in the teardown; `taken` is the number of those messages. After the end, the sink
-- was finished once, behind them, and its answer is the result. The exception is a run that has
-- panicked.
pub Reach-IsDelivered :
    {S : Type 0} (setup : Setup S) (k₀ : S) (spawn : ℕ → Option Worker) (pids : List ℕ)
    (log : List SampleMsg) (s : System S)
    → Reach setup (start_multi k₀ spawn (ok pids)) log s
    → IsDelivered setup k₀ log s
Reach-IsDelivered setup k₀ spawn pids log s r = reached setup k₀ spawn pids log s r
