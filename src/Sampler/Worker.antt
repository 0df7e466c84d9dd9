-- ===== src/Sampler/Worker.antt =====
-- src/sampler.rs, the threads that `run_multi` and `run_top` spawn: one samples one process.
--
-- A round of a thread is one step. What the thread sees in it are arguments: the stop flag, whether
-- /proc/PID/status exists, and whether the receiver of the channel is still there. A panic ends the
-- thread and no other.
use php_fast_profile.Base.{ℕ, List, Option, none, some, Bool, true, false, ◌||◌, if◌then◌else◌}
use php_fast_profile.Base.Act.{Outcome, ok, err, panic, pure, ◌>>=◌}
use php_fast_profile.Zend.Frame.{Frame}
use php_fast_profile.Zend.Walker.{Walker, Walk}
use php_fast_profile.Target.Capture.{Target, capture_stack}
use php_fast_profile.Output.Stacks.{SampleMeta}
use php_fast_profile.Sampler.Leaf.{leaf_is_any}
use php_fast_profile.Sampler.Pace.{Pace, pace}
use php_fast_profile.Sampler.Run.{Settings, is_empty, sample_meta}

pub record SampleMsg : Type 0 where
  pub pid : ℕ
  pub frames : List Frame
  pub meta : SampleMeta

-- What a round comes to: the end of the thread, nothing, or a value for the channel.
pub data Turn (A : Type 0) : Type 0 where
  ended : Turn A
  quiet : Turn A
  sends : A → Turn A

pub record Worker : Type 0 where
  pub target : Target
  pub walker : Walker
  pub pace : Pace
  pub finished : Bool

-- What a worker of `run_multi` makes of its frames.
unfoldable pub make_msg : Settings → ℕ → List Frame → Walk (Option SampleMsg)
make_msg settings pid frames =
    if is_empty frames || leaf_is_any frames settings.drop_leaf then pure none else (do
      meta ← sample_meta settings.capture_request_info settings.target
      pure (some (record { pid = pid; frames = frames; meta = meta })))

unfoldable pub sample_msg : Settings → ℕ → Walk (Option SampleMsg)
sample_msg settings pid = do
  frames ← capture_stack settings.target settings.max_depth
  make_msg settings pid frames

-- What a sampler of `run_top` makes of them.
unfoldable pub sample_top : Settings → Walk (Option (List Frame))
sample_top settings = do
  frames ← capture_stack settings.target settings.max_depth
  pure (if is_empty frames || leaf_is_any frames settings.drop_leaf then none else some frames)

module _ {A : Type 0} where
  -- `match` on the sample, with the break of a failed `send`.
  unfoldable pub turn_of : (alive connected : Bool) → Outcome (Option A) → Turn A
  turn_of alive connected (ok none) = quiet
  turn_of alive connected (ok (some a)) = if connected then sends a else ended
  turn_of alive connected (err e) = if alive then quiet else ended
  turn_of alive connected panic = ended

  abbrev is_end : Turn A → Bool
  is_end ended = true
  is_end quiet = false
  is_end (sends a) = false

  -- One round of `while !stop.load(..)`.
  unfoldable pub thread_round :
      (delay : ℕ → ℕ) (interval : ℕ)
      → Walk (Option A)
      → (stop alive connected : Bool) → Worker
      → Turn A × Worker
  thread_round delay interval sample true alive connected w = (ended, record w { finished = true })
  thread_round delay interval sample false alive connected w =
      let (r, walker) = sample w.walker in
      let turn = turn_of alive connected r in
      (
        turn,
        record w { walker = walker; pace = pace delay interval w.pace; finished = is_end turn },
      )
