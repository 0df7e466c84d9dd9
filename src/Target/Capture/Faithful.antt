-- ===== src/Target/Capture/Faithful.antt =====
-- `capture_stack` returns the call stack that the target's memory holds.
use php_fast_profile.Base.{
  ℕ, zero, suc, ◌^◌, ◌<◌, List, [], ◌∷◌, none, some, take, ◌≡◌, ◌≢◌, arith, ◌==◌, nat_eq,
}
use php_fast_profile.Base.Act.{ok, readv_failed}
use php_fast_profile.Base.Bytes.{to_le_bytes, add64}
use php_fast_profile.Base.Gives.{
  Gives, Fails, Gives-pure, Gives-true, Gives-false, Gives-attempt, Fails-attempt, Gives-bind,
  Fails-bind,
}
use php_fast_profile.Remote
use php_fast_profile.Remote.{Remote, Io, checked}
use php_fast_profile.Offsets.{VersionLayout}
use php_fast_profile.Zend.Frame.{Frame}
use php_fast_profile.Zend.Reads.{current_execute_data}
use php_fast_profile.Zend.Walker.{Walker, io, read_frame}
use php_fast_profile.Zend.Walker.Stored.{Stores, HoldsFrame}
use php_fast_profile.Zend.Walker.Coherence.{IsCoherent, stored_word, test_false, test_true}
use php_fast_profile.Zend.Walker.Faithful.{read_frame-Gives}
use php_fast_profile.Target.Capture.{Target, extend, capture_loop, capture_stack}

-- The stack from the frame at `a` on, innermost first. It ends at a null pointer, or where a
-- frame cannot be read.
pub data HoldsStack (rem : Remote) (layout : VersionLayout) : ℕ → List Frame → Type 0 where
  bottom : {a : ℕ} → a ≡ 0 → HoldsStack rem layout a []
  torn : {a : ℕ} → a ≢ 0 → ((t : ℕ) → rem.readv t a 64 ≡ none) → HoldsStack rem layout a []
  call :
      {a : ℕ} {f : Frame} {frames : List Frame} (prev : ℕ)
      → a ≢ 0
      → HoldsFrame rem layout a f prev
      → HoldsStack rem layout prev frames
      → HoldsStack rem layout a (f ∷ frames)

torn_frame :
    (rem : Remote) (layout : VersionLayout) (a : ℕ)
    → ((t : ℕ) → rem.readv t a 64 ≡ none)
    → Fails (IsCoherent rem) (read_frame rem layout a)
unfolding read_frame
torn_frame rem layout a h = Fails-bind (io (Remote.read rem a 64)) _ (failed)
  where
    failed : Fails (IsCoherent rem) (io (Remote.read rem a 64))
    failed = record {
      at = λ w inv. unfold io Remote.read checked in (readv_failed, ground (arith, h w.calls), inv);
    }

module _ (t : Target) where
  capture_loop-Gives :
      (depth a : ℕ) {frames : List Frame}
      → HoldsStack t.remote t.layout a frames
      → Gives (IsCoherent t.remote) (capture_loop t depth a) (take depth frames)
  unfolding capture_loop extend
  capture_loop-Gives zero a h = Gives-pure []
  capture_loop-Gives (suc depth) a (bottom e) =
      Gives-true (a == 0) _ _ (test_true t.remote a 0 e) (Gives-pure [])
  capture_loop-Gives (suc depth) a (torn ne h) =
      Gives-false (a == 0) _ _ (test_false t.remote a ne)
        (Gives-bind _ _ none _ (Fails-attempt _ (torn_frame t.remote t.layout a h)) (Gives-pure []))
  capture_loop-Gives (suc depth) a (call {f} {frames} prev ne h rest) =
      Gives-false (a == 0) _ _ (test_false t.remote a ne) (
        Gives-bind _ _ (some (f, prev)) _
          (Gives-attempt _ _ (read_frame-Gives t.remote t.layout a h))
          (Gives-bind _ _ (take depth frames) _ (capture_loop-Gives depth prev rest)
            (Gives-pure (f ∷ take depth frames))))

  capture_stack-Gives :
      (max_depth ex : ℕ) {frames : List Frame}
      → ex < 2 ^ 64
      → Stores t.remote
          (add64 t.symbols.executor_globals t.layout.eg_current_execute_data)
          (to_le_bytes 8 ex)
      → HoldsStack t.remote t.layout ex frames
      → Gives (IsCoherent t.remote) (capture_stack t max_depth) (take max_depth frames)
  unfolding capture_stack current_execute_data
  capture_stack-Gives max_depth ex lt at h =
      Gives-bind _ _ ex _ (stored_word t.remote _ ex lt at) (capture_loop-Gives max_depth ex h)

-- If `EG(current_execute_data)` points to a stack that the target's memory holds unchanged, and
-- every cached string is what a read of it would return, a capture returns the innermost
-- `max_depth` frames of that stack, up to the first one that cannot be read, and the cache still
-- holds what reads would return.
pub capture_stack_lem :
    (t : Target) (max_depth ex : ℕ) {frames : List Frame} (w : Walker)
    → ex < 2 ^ 64
    → Stores t.remote
        (add64 t.symbols.executor_globals t.layout.eg_current_execute_data)
        (to_le_bytes 8 ex)
    → HoldsStack t.remote t.layout ex frames
    → IsCoherent t.remote w
    → ((capture_stack t max_depth w).0 ≡ ok (take max_depth frames))
      × IsCoherent t.remote (capture_stack t max_depth w).1
capture_stack_lem t max_depth ex w lt at h inv =
    (capture_stack-Gives t max_depth ex lt at h).at w inv
