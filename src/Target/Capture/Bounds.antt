-- ===== src/Target/Capture/Bounds.antt =====
-- `capture_stack` ends within its depth, its calls and its cache, and does not panic.
use php_fast_profile.Base.{
  ℕ, zero, suc, ◌+◌, ◌*◌, ◌≤◌, List, [], ◌∷◌, Option, none, some, length, ◌≡◌, refl, ◌≢◌, ◌⊎◌, inl,
  inr, arith, ◌==◌, Bool-cases,
}
use php_fast_profile.Base.Act.{
  Outcome, ok, err, panic, Error, pure, to_option, continue, readv_failed, short_read,
}
use php_fast_profile.Base.Safe.{Safe, Safe-pure, Safe-if, Safe-attempt, Safe-bind}
use php_fast_profile.Remote
use php_fast_profile.Remote.{Remote}
use php_fast_profile.Zend.Frame.{Frame}
use php_fast_profile.Zend.Reads.{current_execute_data}
use php_fast_profile.Zend.Walker.{Walker, Walk, io, read_frame, cache_limit}
use php_fast_profile.Zend.Walker.Budget.{
  IsBounded, IsBounded-IsMonotone, io-Safe, read_u64-Safe, read_frame-Safe,
}
use php_fast_profile.Offsets.Laws.{IsInBuffer}
use php_fast_profile.Target.Capture.{Target, extend, capture_loop, capture_stack}

extend-Safe :
    (n : ℕ) (rest : ℕ → Walk (List Frame)) (read : Option (Frame × ℕ))
    → ((prev : ℕ) → Safe IsBounded n (rest prev))
    → Safe IsBounded n (extend rest read)
unfolding extend
extend-Safe n rest none h = Safe-pure IsBounded-IsMonotone n []
extend-Safe n rest (some (frame, prev)) h =
    Safe-bind IsBounded-IsMonotone n 0 n _ _ (omega arith) (h prev)
      λ frames. Safe-pure IsBounded-IsMonotone 0 _

module _ (t : Target) (fits : IsInBuffer t.layout) where
  capture_loop-Safe : (depth ex : ℕ) → Safe IsBounded (10 * depth) (capture_loop t depth ex)
  unfolding capture_loop
  capture_loop-Safe zero ex = Safe-pure {A = List Frame} IsBounded-IsMonotone _ []
  capture_loop-Safe (suc depth) ex =
      Safe-if {A = List Frame} _ _ _ _ (Safe-pure IsBounded-IsMonotone _ []) (
        Safe-bind IsBounded-IsMonotone 10 (10 * depth) _ _ _ (omega arith)
          (Safe-attempt 10 _ (read_frame-Safe t.remote t.layout fits ex))
          λ read. extend-Safe (10 * depth) _ read (λ prev. capture_loop-Safe depth prev))

  pub capture_stack-Safe :
      (max_depth : ℕ) → Safe IsBounded (1 + 10 * max_depth) (capture_stack t max_depth)
  unfolding capture_stack current_execute_data
  capture_stack-Safe max_depth =
      Safe-bind IsBounded-IsMonotone 1 (10 * max_depth) _ _ _ (omega arith)
        (io-Safe 1 _ (read_u64-Safe t.remote _)) λ ex. capture_loop-Safe max_depth ex

-- A list within a length, or a panic; never an error.
Short : ℕ → Outcome (List Frame) → Type 0
Short n (ok frames) = length frames ≤ n
Short n (err e) = ⊥
Short n panic = Unit

Short-cons :
    (n : ℕ) (frame : Frame) (r : Outcome (List Frame)) (w : Walker)
    → Short n r
    → Short (suc n) (continue r (λ frames. pure (frame ∷ frames)) w).0
unfolding Short
Short-cons n frame (ok frames) w h = omega arith
Short-cons n frame (err e) w h = h
Short-cons n frame panic w h = h

extend-Short :
    (n : ℕ) (rest : ℕ → Walk (List Frame)) (r : Outcome (Frame × ℕ)) (w : Walker)
    → ((prev : ℕ) (w : Walker) → Short n (rest prev w).0)
    → Short (suc n) (continue (to_option r) (extend rest) w).0
unfolding extend Short
extend-Short n rest (ok (frame, prev)) w h =
    Short-cons n frame (rest prev w).0 (rest prev w).1 (h prev w)
extend-Short n rest (err e) w h = omega arith
extend-Short n rest panic w h = tt

capture_loop-Short :
    (t : Target) (depth ex : ℕ) (w : Walker) → Short depth (capture_loop t depth ex w).0
unfolding capture_loop
capture_loop-Short t zero ex w = unfold Short in omega arith
capture_loop-Short t (suc depth) ex w = elim (Bool-cases (ex == 0)) [
  | inl e ↦ rw e (unfold Short in omega arith)
  | inr e ↦ rw e (
      extend-Short depth (capture_loop t depth) (read_frame t.remote t.layout ex w).0
        (read_frame t.remote t.layout ex w).1 (capture_loop-Short t depth))
]

-- The frames of a capture, or the error of its first read.
abbrev pub IsCapture : ℕ → Outcome (List Frame) → Type 0
IsCapture n (ok frames) = length frames ≤ n
IsCapture n (err e) = (e ≡ readv_failed) ⊎ (e ≡ short_read)
IsCapture n panic = ⊥

Short→IsCapture : (n : ℕ) (r : Outcome (List Frame)) → r ≢ panic → Short n r → IsCapture n r
unfolding Short
Short→IsCapture n (ok frames) h s = s
Short→IsCapture n (err e) h s = absurd s
Short→IsCapture n panic h s = h refl

read_u64_errors :
    (rem : Remote) (addr k : ℕ) (e : Error)
    → (Remote.read_u64 rem addr k).0 ≡ err e
    → (e ≡ readv_failed) ⊎ (e ≡ short_read)
unfolding Remote.read_u64 Remote.read
read_u64_errors rem addr k e h = ground arith

captured :
    (t : Target) (n : ℕ) (r : Outcome ℕ) (w : Walker)
    → ((e : Error) → r ≡ err e → (e ≡ readv_failed) ⊎ (e ≡ short_read))
    → (continue r (capture_loop t n) w).0 ≢ panic
    → IsCapture n (continue r (capture_loop t n) w).0
captured t n (ok ex) w h np = Short→IsCapture n _ np (capture_loop-Short t n ex w)
captured t n (err e) w h np = h e refl
captured t n panic w h np = np refl

-- With a layout whose fields lie in the function buffer and a cache within its limit, and whatever
-- the target's memory answers, from one call to the next too, a capture returns at most
-- `max_depth` frames or the error of a read, and does not panic; it makes at most
-- `1 + 10 * max_depth` calls, and leaves the cache within its limit.
pub capture_stack_bounds :
    (t : Target) (max_depth : ℕ) (w : Walker)
    → IsInBuffer t.layout
    → length w.string_cache ≤ cache_limit
    → IsCapture max_depth (capture_stack t max_depth w).0
      × ((capture_stack t max_depth w).1.calls ≤ w.calls + (1 + 10 * max_depth))
      × (length (capture_stack t max_depth w).1.string_cache ≤ cache_limit)
capture_stack_bounds t max_depth w fits small =
    let (np, inv) =
      (capture_stack-Safe t fits max_depth).at w.calls (w.calls + (1 + 10 * max_depth)) w
        (omega arith) (record { calls = omega arith; cache = small }) in
    (
      (unfold capture_stack current_execute_data io in
          captured t max_depth _ _ (λ e h. read_u64_errors t.remote _ _ e h) np),
      inv.calls,
      inv.cache,
    )
