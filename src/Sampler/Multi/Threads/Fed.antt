-- ===== src/Sampler/Multi/Threads/Fed.antt =====
-- The messages that reach the sink of `run_multi`, and those that wait in the channel.
use php_fast_profile.Base.{
  ℕ, ◌+◌, length, length-append, List, [], ◌∷◌, ◌++◌, ◌≡◌, refl, sym, ap, arith, Option, none, some,
}
use php_fast_profile.Base.Text.{Text, codes, to_string}
use php_fast_profile.Zend.Frame.{Frame}
use php_fast_profile.Output.Stacks.{SampleMeta}
use php_fast_profile.Output.Sink.{Sink}
use php_fast_profile.Sampler.Worker.{Worker, SampleMsg, Turn}
use php_fast_profile.Sampler.Multi.{System, annotate, tag_uri}
use php_fast_profile.Sampler.Multi.Threads.{Setup, after_turn, sent}
use mathlib.Core.List.{append-nil, append_assoc}

-- A sink that was given samples one after the other, whatever it answered.
pub feed : {S : Type 0} → Sink S → List (List Frame × SampleMeta) → S → S
feed sink [] k = k
feed sink ((frames, meta) ∷ samples) k = feed sink samples (sink.write_sample frames meta k).1

feed-append :
    {S : Type 0} (sink : Sink S) (xs ys : List (List Frame × SampleMeta)) (k : S)
    → feed sink (xs ++ ys) k ≡ feed sink ys (feed sink xs k)
unfolding feed
feed-append sink [] ys k = refl
feed-append sink ((f, m) ∷ xs) ys k = feed-append sink xs ys _

-- A sample with `[pid N] ` in front of its URI, if it has one.
pub tagged : SampleMsg → SampleMeta
tagged msg = record msg.meta {
  request_uri = elim msg.meta.request_uri [
    | none ↦ none
    | some uri ↦ some (codes "[pid " ++ (to_string msg.pid ++ (codes "] " ++ uri)))
  ];
}

annotate-tagged : (msg : SampleMsg) → tagged msg ≡ annotate msg
unfolding annotate tagged
annotate-tagged msg = with_uri msg.meta.request_uri
  where
    with_uri :
        (uri : Option Text)
        → record msg.meta {
          request_uri = elim uri [
            | none ↦ none
            | some u ↦ some (codes "[pid " ++ (to_string msg.pid ++ (codes "] " ++ u)))
          ];
        }
          ≡ record msg.meta { request_uri = tag_uri msg.pid uri }
    with_uri none = unfold tag_uri in refl
    with_uri (some u) = unfold tag_uri in refl

-- The messages that the loop has written, with their pid; those of the teardown, without it.
pub samples_of : (main drained : List SampleMsg) → List (List Frame × SampleMeta)
samples_of [] [] = []
samples_of [] (msg ∷ drained) = (msg.frames, msg.meta) ∷ samples_of [] drained
samples_of (msg ∷ main) drained = (msg.frames, tagged msg) ∷ samples_of main drained

samples_of-main :
    (main : List SampleMsg) (msg : SampleMsg)
    → samples_of (main ++ (msg ∷ [])) [] ≡ samples_of main [] ++ ((msg.frames, annotate msg) ∷ [])
unfolding samples_of
samples_of-main [] msg = ap (λ m. (msg.frames, m) ∷ []) (annotate-tagged msg)
samples_of-main (x ∷ main) msg = cc (samples_of-main main msg)

samples_of-drained :
    (main drained : List SampleMsg) (msg : SampleMsg)
    → samples_of main (drained ++ (msg ∷ []))
      ≡ samples_of main drained ++ ((msg.frames, msg.meta) ∷ [])
unfolding samples_of
samples_of-drained [] [] msg = refl
samples_of-drained [] (x ∷ drained) msg = cc (samples_of-drained [] drained msg)
samples_of-drained (x ∷ main) drained msg = cc (samples_of-drained main drained msg)

module _ {S : Type 0} (setup : Setup S) (k₀ : S) where
  -- The first messages sent were written in their order, and the others wait.
  pub record IsFed (log main drained : List SampleMsg) (k : S) (s : System S) : Type 0 where
    pub queue : log ≡ main ++ (drained ++ s.channel)
    pub fed : k ≡ feed setup.sink (samples_of main drained) k₀
    pub taken : s.taken ≡ length main + length drained

  pub IsFed-work :
      (log main drained new : List SampleMsg) (k : S) (pid : ℕ) (turn : Turn SampleMsg × Worker)
      (s : System S)
      → IsFed log main drained k s
      → IsFed (log ++ sent turn.0) main drained k (after_turn setup pid turn s)
  unfolding after_turn
  IsFed-work log main drained new k pid turn s h = record {
    queue = cc (
      h.queue,
      append_assoc main (drained ++ s.channel) (sent turn.0),
      append_assoc drained s.channel (sent turn.0),
    );
    fed = h.fed;
    taken = h.taken;
  }

  pub IsFed-main :
      (log main rest : List SampleMsg) (msg : SampleMsg) (s t : System S)
      → s.channel ≡ msg ∷ rest
      → t.channel ≡ rest
      → t.taken ≡ s.taken + 1
      → t.sink ≡ (setup.sink.write_sample msg.frames (annotate msg) s.sink).1
      → IsFed log main [] s.sink s
      → IsFed (log ++ []) (main ++ (msg ∷ [])) [] t.sink t
  unfolding feed
  IsFed-main log main rest msg s t e₁ e₂ e₃ e₄ h = record {
    queue = cc (append-nil log, h.queue, e₁, e₂, append_assoc main (msg ∷ []) rest);
    fed = cc (
      e₄,
      h.fed,
      samples_of-main main msg,
      feed-append setup.sink (samples_of main []) ((msg.frames, annotate msg) ∷ []) k₀,
    );
    taken = omega (arith, e₃, h.taken, length-append main (msg ∷ []));
  }

  pub IsFed-drained :
      (log main drained rest : List SampleMsg) (msg : SampleMsg) (s t : System S)
      → s.channel ≡ msg ∷ rest
      → t.channel ≡ rest
      → t.taken ≡ s.taken + 1
      → t.sink ≡ (setup.sink.write_sample msg.frames msg.meta s.sink).1
      → IsFed log main drained s.sink s
      → IsFed (log ++ []) main (drained ++ (msg ∷ [])) t.sink t
  unfolding feed
  IsFed-drained log main drained rest msg s t e₁ e₂ e₃ e₄ h = record {
    queue = cc (append-nil log, h.queue, e₁, e₂, append_assoc drained (msg ∷ []) rest);
    fed = cc (
      e₄,
      h.fed,
      samples_of-drained main drained msg,
      feed-append setup.sink (samples_of main drained) ((msg.frames, msg.meta) ∷ []) k₀,
    );
    taken = omega (arith, e₃, h.taken, length-append drained (msg ∷ []));
  }

  -- A step that leaves the messages alone.
  pub IsFed-same :
      (log main drained : List SampleMsg) (k : S) (s t : System S)
      → t.channel ≡ s.channel
      → t.taken ≡ s.taken
      → IsFed log main drained k s
      → IsFed (log ++ []) main drained k t
  IsFed-same log main drained k s t e₁ e₂ h = record {
    queue = cc (append-nil log, h.queue, e₁);
    fed = h.fed;
    taken = cc (e₂, h.taken);
  }

  pub IsFed-start :
      (s : System S) → s.channel ≡ [] → s.taken ≡ 0 → s.sink ≡ k₀ → IsFed [] [] [] s.sink s
  unfolding feed samples_of
  IsFed-start s e₁ e₂ e₃ = record { queue = sym e₁; fed = e₃; taken = e₂ }
