-- ===== src/Base/Gives.antt =====
-- Actions that return a known value and keep an invariant of the state.
use mathlib.Core.Path.{◌≡◌, refl}
use mathlib.Core.Bool.{Bool, true, false}
use mathlib.Core.Option.{none, some}
use php_fast_profile.Base.Tests.{if◌then◌else◌}
use php_fast_profile.Base.Act.{
  Outcome, ok, err, Error, Act, pure, lift, attempt, unwrap_or, continue, ◌>>=◌,
}

pub record Gives {S A : Type 0} (Inv : S → Type 0) (m : Act S A) (a : A) : Type 0 where
  pub at : (s : S) → Inv s → ((m s).0 ≡ ok a) × Inv (m s).1

-- An action that fails, with some error, and keeps the invariant.
pub record Fails {S A : Type 0} (Inv : S → Type 0) (m : Act S A) : Type 0 where
  pub at : (s : S) → Inv s → (e : Error) × ((m s).0 ≡ err e) × Inv (m s).1

module _ {S A : Type 0} {Inv : S → Type 0} where
  pub Gives-pure : (a : A) → Gives Inv (pure {S = S} a) a
  Gives-pure a = record { at = λ s inv. (refl, inv) }

  pub Gives-lift : (r : Outcome A) (a : A) → r ≡ ok a → Gives Inv (lift {S = S} r) a
  Gives-lift r a e = record { at = λ s inv. (e, inv) }

  pub Gives-true :
      (b : Bool) (m p : Act S A) {a : A}
      → b ≡ true
      → Gives Inv m a
      → Gives Inv (if b then m else p) a
  Gives-true true m p e g = g
  Gives-true false m p e g = cc

  pub Gives-false :
      (b : Bool) (m p : Act S A) {a : A}
      → b ≡ false
      → Gives Inv p a
      → Gives Inv (if b then m else p) a
  Gives-false true m p e g = cc
  Gives-false false m p e g = g

  pub Gives-attempt : (m : Act S A) (a : A) → Gives Inv m a → Gives Inv (attempt m) (some a)
  Gives-attempt m a g = record { at = λ s inv. let (e, inv') = g.at s inv in (rw e refl, inv') }

  pub Fails-attempt : (m : Act S A) → Fails Inv m → Gives Inv (attempt m) none
  Fails-attempt m g = record { at = λ s inv. let (x, e, inv') = g.at s inv in (rw e refl, inv') }

  pub Gives-unwrap_or : (m : Act S A) (d a : A) → Gives Inv m a → Gives Inv (unwrap_or m d) a
  Gives-unwrap_or m d a g = record { at = λ s inv. let (e, inv') = g.at s inv in (rw e refl, inv') }

  pub Fails-unwrap_or : (m : Act S A) (d : A) → Fails Inv m → Gives Inv (unwrap_or m d) d
  Fails-unwrap_or m d g = record {
    at = λ s inv. let (x, e, inv') = g.at s inv in (rw e refl, inv');
  }

module _ {S A B : Type 0} {Inv : S → Type 0} where
  Gives-continue :
      (r : Outcome A) (f : A → Act S B) (s : S) (a : A) (b : B)
      → r ≡ ok a
      → Inv s
      → Gives Inv (f a) b
      → ((continue r f s).0 ≡ ok b) × Inv (continue r f s).1
  Gives-continue r f s a b e inv g = rw e (g.at s inv)

  pub Gives-bind :
      (m : Act S A) (f : A → Act S B) (a : A) (b : B)
      → Gives Inv m a
      → Gives Inv (f a) b
      → Gives Inv (m >>= f) b
  Gives-bind m f a b gm gf = record {
    at = λ s inv. let (e, inv') = gm.at s inv in Gives-continue (m s).0 f (m s).1 a b e inv' gf;
  }

  pub Fails-bind : (m : Act S A) (f : A → Act S B) → Fails Inv m → Fails Inv (m >>= f)
  Fails-bind m f g = record { at = λ s inv. let (e, p, inv') = g.at s inv in rw p (e, refl, inv') }
