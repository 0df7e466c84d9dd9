-- ===== src/Cli/Process/Started.antt =====
-- What `Sampler::attach` gives a run to start with.
use php_fast_profile.Base.{ℕ, [], Bool, ◌≡◌, refl}
use php_fast_profile.Zend.Walker.{new_walker}
use php_fast_profile.Base.Act.{Outcome, ok, err, panic, bind}
use php_fast_profile.Base.Text.{Text}
use php_fast_profile.Arguments.{Args}
use php_fast_profile.Output.Build.{AnySink, Outside, build_sink}
use php_fast_profile.Target.Attach.{Machine, attach}
use php_fast_profile.Target.Attach.Laws.{IsAttached, attach_lem}
use php_fast_profile.Target.Capture.{Target}
use php_fast_profile.Sampler.Start.{attach_options, attach_sampler}
use php_fast_profile.Sampler.Run.{Settings, Sampler}

-- What an attached sampler starts with.
pub record IsStarted (m : Machine) (outside : Outside) (create : Text → Bool) (args : Args)
    (pid : ℕ) (settings : Settings) (sampler : Sampler AnySink) : Type 0 where
  pub target : IsAttached m pid (attach_options args) settings.target
  pub kept :
      (settings.max_depth ≡ args.max_depth)
      × (settings.drop_leaf ≡ args.drop_leaf)
      × (settings.capture_request_info ≡ args.request_info)
  pub cache : sampler.walker.string_cache ≡ []
  pub sink : build_sink outside create args ≡ ok sampler.sink

-- What holds of a result, if there is one.
unfoldable pub Holds : {A : Type 0} → (A → Type 0) → Outcome A → Type 0
Holds P (ok a) = P a
Holds P (err x) = Unit
Holds P panic = Unit

bind-Holds :
    {A B : Type 0} (P : B → Type 0) (r : Outcome A) (f : A → Outcome B)
    → ((a : A) → r ≡ ok a → Holds P (f a))
    → Holds P (bind r f)
unfolding Holds
bind-Holds P (ok a) f h = h a refl
bind-Holds P (err x) f h = tt
bind-Holds P panic f h = tt

-- What `attach_sampler` makes of its sink, and of its target.
with_sink : Args → Target → AnySink → Outcome (Settings × Sampler AnySink)
with_sink args t sink = ok (
  record {
    target = t;
    capture_request_info = args.request_info;
    max_depth = args.max_depth;
    drop_leaf = args.drop_leaf;
  },
  record { walker = new_walker; sink = sink },
)

with_target : Outside → (Text → Bool) → Args → Target → Outcome (Settings × Sampler AnySink)
with_target outside create args t = bind (build_sink outside create args) (with_sink args t)

pub attach_sampler-Holds :
    (m : Machine) (outside : Outside) (create : Text → Bool) (args : Args) (pid k : ℕ)
    → Holds
        (λ attached. IsStarted m outside create args pid attached.0 attached.1)
        (attach_sampler m outside create args pid k)
unfolding attach_sampler with_target with_sink
attach_sampler-Holds m outside create args pid k =
    let P : Settings × Sampler AnySink → Type 0 =
      λ attached. IsStarted m outside create args pid attached.0 attached.1 in
    bind-Holds P (attach m pid (attach_options args) k).0 (with_target outside create args) λ t e.
      bind-Holds P (build_sink outside create args) (with_sink args t) λ sink e'.
        unfold Holds with_sink in
        record {
          target = attach_lem m pid (attach_options args) k t e;
          kept = (refl, refl, refl);
          cache = refl;
          sink = e';
        }
