-- ===== src/Sampler/Multi/Teardown/Steps.antt =====
-- The steps of `run_multi` when the stop flag is set, and how many there can be.
use php_fast_profile.Base.{
  ℕ, suc, ◌+◌, ◌≤◌, length, List, [], ◌∷◌, some, All, Bool, true, false, ◌≡◌, refl, ◌⊎◌, inl, inr,
  ◌∙◌, arith, nat_eq,
}
use mathlib.Core.List.{append-nil}
use php_fast_profile.Base.Act.{Outcome, ok, err, panic}
use php_fast_profile.Base.Map.{lookup}
use php_fast_profile.Sampler.Worker.{Worker, SampleMsg, thread_round}
use php_fast_profile.Sampler.Multi.{System, Phase, main_receive, after_write, drain, finish_multi}
use php_fast_profile.Sampler.Multi.Threads.{
  Setup, Step, Reach, IsFlag, IsFinished, after_turn, worker_turn,
}
use php_fast_profile.Sampler.Multi.Teardown.Joins.{running, running-insert}

-- What a state may still take: the messages that wait, the threads that run, and the main thread's
-- own steps.
by_phase : Phase → ℕ → ℕ → ℕ
by_phase Phase.receiving waiting threads = waiting + threads + 3
by_phase Phase.timing waiting threads = waiting + threads + 4
by_phase Phase.draining waiting threads = waiting + threads + 2
by_phase Phase.joining waiting threads = threads + 1
by_phase (Phase.returned r) waiting threads = 0

-- The flag of the threads is set in the teardown.
flag_cases : {p : Phase} → IsFlag true p → (p ≡ Phase.draining) ⊎ (p ≡ Phase.joining)
flag_cases IsFlag.on_drain = inl refl
flag_cases IsFlag.on_join = inr refl

module _ {S : Type 0} (setup : Setup S) where
  -- A step when the stop flag is set, and every round that begins sees it.
  pub data StopStep (s : System S) : System S → Type 0 where
    leave_loop :
        (late : Bool) → s.phase ≡ Phase.receiving → StopStep s (main_receive setup.sink true late s)
    end_thread :
        (pid : ℕ) (w : Worker) (alive : Bool)
        → lookup pid s.workers ≡ some w
        → w.finished ≡ false
        → IsFlag true s.phase
        → StopStep s (after_turn setup pid (worker_turn setup pid true alive w) s)
    drain_one : s.phase ≡ Phase.draining → StopStep s (drain setup.sink s.channel s)
    finish :
        s.phase ≡ Phase.joining → All IsFinished s.workers → StopStep s (finish_multi setup.sink s)

  -- As many of these steps, in whatever order.
  pub data StopReach (s₀ : System S) : ℕ → System S → Type 0 where
    stay : StopReach s₀ 0 s₀
    more : {n : ℕ} {s t : System S} → StopReach s₀ n s → StopStep s t → StopReach s₀ (suc n) t

  -- They are steps of `run_multi`, and send nothing.
  pub StopStep-Step : {s t : System S} → StopStep s t → Step setup s [] t
  unfolding worker_turn thread_round
  StopStep-Step (leave_loop late p) = Step.receive true late p
  StopStep-Step (end_thread pid w alive found runs flag) =
      Step.work pid w true alive found runs flag
  StopStep-Step (drain_one p) = Step.drain_one p
  StopStep-Step (finish p all) = Step.finish p all

  pub StopReach-Reach : {s t : System S} {n : ℕ} → StopReach s n t → Reach setup s [] t
  StopReach-Reach stay = Reach.start
  StopReach-Reach (more r step) = Reach.later (StopReach-Reach r) (StopStep-Step step)

  -- Where a teardown is.
  pub data IsTeardown (s : System S) : Type 0 where
    looping : s.phase ≡ Phase.receiving → IsTeardown s
    draining : s.phase ≡ Phase.draining → IsTeardown s
    joining : s.phase ≡ Phase.joining → s.channel ≡ [] → IsTeardown s
    ended :
        (result : Outcome (Unit {0}))
        → s.phase ≡ Phase.returned result
        → (result ≡ panic) ⊎ (s.channel ≡ [])
        → IsTeardown s

  measure : System S → ℕ
  measure s = by_phase s.phase (length s.channel) (running s.workers)

  -- A step goes on with the teardown, and brings it nearer to its end.
  record GoesOn (s t : System S) : Type 0 where
    still : IsTeardown t
    nearer : measure t + 1 ≤ measure s

  after_write-GoesOn :
      (msg : SampleMsg) (rest : List SampleMsg) (o : Outcome (Unit {0}) × S) (s : System S)
      → s.phase ≡ Phase.draining
      → s.channel ≡ msg ∷ rest
      → GoesOn s (after_write Phase.draining o (record s { channel = rest }))
  unfolding after_write measure by_phase
  after_write-GoesOn msg rest (panic, k) s p c = record {
    still = ended panic refl (inl refl);
    nearer = ground (arith, p);
  }
  after_write-GoesOn msg rest (ok _, k) s p c = record {
    still = draining refl;
    nearer = ground (arith, p, c);
  }
  after_write-GoesOn msg rest (err e, k) s p c = record {
    still = draining refl;
    nearer = ground (arith, p, c);
  }

  drain-GoesOn :
      (channel : List SampleMsg) (s : System S)
      → s.phase ≡ Phase.draining
      → s.channel ≡ channel
      → GoesOn s (drain setup.sink channel s)
  unfolding drain measure by_phase
  drain-GoesOn [] s p c = record { still = joining refl c; nearer = ground (arith, p, c) }
  drain-GoesOn (msg ∷ rest) s p c = after_write-GoesOn msg rest _ s p c

  end_thread-GoesOn :
      (pid : ℕ) (w : Worker) (alive : Bool) (s : System S)
      → lookup pid s.workers ≡ some w
      → w.finished ≡ false
      → IsFlag true s.phase
      → IsTeardown s
      → GoesOn s (after_turn setup pid (worker_turn setup pid true alive w) s)
  unfolding after_turn worker_turn thread_round measure by_phase
  end_thread-GoesOn pid w alive s found runs flag (looping p) = elim (flag_cases flag) [
    | inl e ↦ cc
    | inr e ↦ cc
  ]
  end_thread-GoesOn pid w alive s found runs flag (draining p) = record {
    still = draining p;
    nearer = ground (
      arith,
      p,
      append-nil s.channel,
      running-insert pid w (record w { finished = true }) s.workers found runs refl,
    );
  }
  end_thread-GoesOn pid w alive s found runs flag (joining p c) = record {
    still = joining p (append-nil s.channel ∙ c);
    nearer =
        ground
          (arith, p, running-insert pid w (record w { finished = true }) s.workers found runs refl);
  }
  end_thread-GoesOn pid w alive s found runs flag (ended r p q) = elim (flag_cases flag) [
    | inl e ↦ cc
    | inr e ↦ cc
  ]

  finish-GoesOn :
      (s : System S) → s.phase ≡ Phase.joining → IsTeardown s → GoesOn s (finish_multi setup.sink s)
  unfolding finish_multi measure by_phase
  finish-GoesOn s p (looping q) = cc
  finish-GoesOn s p (draining q) = cc
  finish-GoesOn s p (joining q c) = record {
    still = ended (setup.sink.finish s.sink).0 refl (inr c);
    nearer = ground (arith, p);
  }
  finish-GoesOn s p (ended r q c) = cc

  StopStep-GoesOn : {s t : System S} → StopStep s t → IsTeardown s → GoesOn s t
  unfolding main_receive measure by_phase
  StopStep-GoesOn {s = s} (leave_loop late p) h = record {
    still = draining refl;
    nearer = ground (arith, p);
  }
  StopStep-GoesOn {s = s} (end_thread pid w alive found runs flag) h =
      end_thread-GoesOn pid w alive s found runs flag h
  StopStep-GoesOn {s = s} (drain_one p) h = drain-GoesOn s.channel s p refl
  StopStep-GoesOn {s = s} (finish p all) h = finish-GoesOn s p h

  -- So their number is bounded, whatever their order.
  pub record IsBounded (s : System S) (n : ℕ) (t : System S) : Type 0 where
    pub teardown : IsTeardown t
    pub steps : n ≤ length s.channel + running s.workers + 3

  within_measure :
      {s t : System S} {n : ℕ}
      → StopReach s n t
      → IsTeardown s
      → IsTeardown t × (measure t + n ≤ measure s)
  within_measure stay h = (h, omega arith)
  within_measure (more r step) h =
      let (before, bound) = within_measure r h in
      let one = StopStep-GoesOn step before in (one.still, omega (arith, one.nearer, bound))

  pub StopReach-IsBounded :
      {s t : System S} {n : ℕ} → StopReach s n t → IsTeardown s → IsBounded s n t
  unfolding measure by_phase
  StopReach-IsBounded {s} {t} {n} r h =
      let (still, bound) = within_measure r h in record { teardown = still; steps = least h bound }
    where
      least :
          IsTeardown s → measure t + n ≤ measure s → n ≤ length s.channel + running s.workers + 3
      least (looping p) b = ground (arith, p, b)
      least (draining p) b = ground (arith, p, b)
      least (joining p c) b = ground (arith, p, b)
      least (ended r p q) b = ground (arith, p, b)
