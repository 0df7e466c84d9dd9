-- ===== src/Base/Safe.antt =====
-- Actions that never panic and keep an invariant with a budget.
--
-- `Inv k s` is an invariant of the state that bounds what was spent by `k`. `Safe Inv n m` says that
-- `m` spends at most `n`, whether it returns or fails, and does not panic.
use Prim.Native.Nat.{ℕ, ◌+◌, ◌≤◌}
use mathlib.Core.Path.{◌≡◌, refl}
use mathlib.Core.Logic.{◌≢◌}
use mathlib.Core.Bool.{Bool, true, false}
use native.Mathlib.Omega.{arith}
use php_fast_profile.Base.Tests.{if◌then◌else◌}
use php_fast_profile.Base.Act.{
  Outcome, ok, err, panic, Act, pure, lift, attempt, unwrap_or, to_option, default_of, continue,
  ◌>>=◌,
}

pub record Safe {S A : Type 0} (Inv : ℕ → S → Type 0) (n : ℕ) (m : Act S A) : Type 0 where
  pub at : (k j : ℕ) (s : S) → k + n ≤ j → Inv k s → ((m s).0 ≢ panic) × Inv j (m s).1

pub record IsMonotone {S : Type 0} (Inv : ℕ → S → Type 0) : Type 0 where
  pub up : (k j : ℕ) (s : S) → k ≤ j → Inv k s → Inv j s

module _ {S A : Type 0} {Inv : ℕ → S → Type 0} (mono : IsMonotone Inv) where
  pub Safe-lift : (n : ℕ) (r : Outcome A) → r ≢ panic → Safe Inv n (lift {S = S} r)
  Safe-lift n r h = record { at = λ k j s le inv. (h, mono.up k j s (omega arith) inv) }

  pub Safe-pure : (n : ℕ) (a : A) → Safe Inv n (pure {S = S} a)
  Safe-pure n a = Safe-lift n (ok a) (λ e. cc)

  pub Safe-weaken : (a n : ℕ) (m : Act S A) → a ≤ n → Safe Inv a m → Safe Inv n m
  Safe-weaken a n m h sm = record { at = λ k j s le inv. sm.at k j s (omega arith) inv }

module _ {A : Type 0} where
  to_option-ne-panic : (r : Outcome A) → r ≢ panic → to_option r ≢ panic
  to_option-ne-panic (ok a) h = λ e. cc
  to_option-ne-panic (err x) h = λ e. cc
  to_option-ne-panic panic h = λ e. h refl

  default_of-ne-panic : (d : A) (r : Outcome A) → r ≢ panic → default_of d r ≢ panic
  default_of-ne-panic d (ok a) h = h
  default_of-ne-panic d (err x) h = λ e. cc
  default_of-ne-panic d panic h = h

module _ {S A : Type 0} {Inv : ℕ → S → Type 0} where
  pub Safe-if :
      (n : ℕ) (b : Bool) (m p : Act S A)
      → Safe Inv n m
      → Safe Inv n p
      → Safe Inv n (if b then m else p)
  Safe-if n true m p sm sp = sm
  Safe-if n false m p sm sp = sp

  pub Safe-attempt : (n : ℕ) (m : Act S A) → Safe Inv n m → Safe Inv n (attempt m)
  Safe-attempt n m sm = record {
    at = λ k j s le inv. let (h, inv') = sm.at k j s le inv in (to_option-ne-panic (m s).0 h, inv');
  }

  pub Safe-unwrap_or : (n : ℕ) (m : Act S A) (d : A) → Safe Inv n m → Safe Inv n (unwrap_or m d)
  Safe-unwrap_or n m d sm = record {
    at = λ k j s le inv.
        let (h, inv') = sm.at k j s le inv in (default_of-ne-panic d (m s).0 h, inv');
  }

module _ {S A B : Type 0} {Inv : ℕ → S → Type 0} (mono : IsMonotone Inv) where
  Safe-continue :
      (b : ℕ) (r : Outcome A) (f : A → Act S B) (k j : ℕ) (s : S)
      → k + b ≤ j
      → r ≢ panic
      → Inv k s
      → ((x : A) → r ≡ ok x → Safe Inv b (f x))
      → ((continue r f s).0 ≢ panic) × Inv j (continue r f s).1
  Safe-continue b (ok a) f k j s le h inv sf = (sf a refl).at k j s le inv
  Safe-continue b (err e) f k j s le h inv sf = ((λ p. cc), mono.up k j s (omega arith) inv)
  Safe-continue b panic f k j s le h inv sf = absurd (h refl)

  -- The rest may use what the first action returned.
  pub Safe-bind_known :
      (a b n : ℕ) (m : Act S A) (f : A → Act S B)
      → a + b ≤ n
      → Safe Inv a m
      → ((x : A) (s : S) → (m s).0 ≡ ok x → Safe Inv b (f x))
      → Safe Inv n (m >>= f)
  Safe-bind_known a b n m f le sm sf = record {
    at = λ k j s room inv.
        let (h, inv') = sm.at k (k + a) s (omega arith) inv in
        Safe-continue b (m s).0 f (k + a) j (m s).1 (omega arith) h inv' (λ x e. sf x s e);
  }

  pub Safe-bind :
      (a b n : ℕ) (m : Act S A) (f : A → Act S B)
      → a + b ≤ n
      → Safe Inv a m
      → ((x : A) → Safe Inv b (f x))
      → Safe Inv n (m >>= f)
  Safe-bind a b n m f le sm sf = Safe-bind_known a b n m f le sm (λ x s e. sf x)
