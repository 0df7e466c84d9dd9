-- ===== src/Base/Ensures.antt =====
-- What a value that an action returns satisfies.
use mathlib.Core.Path.{◌≡◌, refl, ap, subst}
use php_fast_profile.Base.Act.{Outcome, ok, err, panic, Act, pure, continue, ◌>>=◌}

pub record Ensures {S A : Type 0} (P : A → Type 0) (m : Act S A) : Type 0 where
  pub at : (s : S) (a : A) → (m s).0 ≡ ok a → P a

value_or : {A : Type 0} → A → Outcome A → A
value_or d (ok a) = a
value_or d (err e) = d
value_or d panic = d

module _ {S A : Type 0} {P : A → Type 0} where
  pub Ensures-pure : (a : A) → P a → Ensures P (pure {S = S} a)
  unfolding value_or
  Ensures-pure a h = record { at = λ s b e. subst P (ap (value_or a) e) h }

module _ {S A B : Type 0} {P : B → Type 0} where
  continued :
      (r : Outcome A) (f : A → Act S B) (s : S) (b : B)
      → ((a : A) → r ≡ ok a → Ensures P (f a))
      → (continue r f s).0 ≡ ok b
      → P b
  continued (ok a) f s b h e = (h a refl).at s b e
  continued (err x) f s b h e = cc
  continued panic f s b h e = cc

  pub Ensures-bind :
      (m : Act S A) (f : A → Act S B)
      → ((s : S) (a : A) → (m s).0 ≡ ok a → Ensures P (f a))
      → Ensures P (m >>= f)
  Ensures-bind m f h = record { at = λ s b e. continued (m s).0 f (m s).1 b (h s) e }
