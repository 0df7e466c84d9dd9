-- ===== src/Output/Writer/Laws.antt =====
-- Actions that append a text to a writer, on a device that may fail.
use php_fast_profile.Base.{
  ℕ, zero, suc, [], ◌∷◌, ◌++◌, Option, none, some, take, ◌≡◌, ◌≢◌, refl, sym, ap,
}
use php_fast_profile.Base.Act.{Outcome, ok, err, panic, Act, pure, continue, ◌>>=◌}
use php_fast_profile.Base.Text.{Text}
use php_fast_profile.Output.Writer.{Device, Writer, answer, write, flush}
use mathlib.Core.List.{append-nil, append_assoc}

-- The action appends the whole text if it succeeds, and a front part of it if it fails.
pub Appends : Text → Outcome (Unit {0}) → Writer → Writer → Type 0
Appends s (ok _) w w' = w'.out ≡ w.out ++ s
Appends s (err e) w w' = (n : ℕ) × (w'.out ≡ w.out ++ take n s)
Appends s panic w w' = ⊥

pub record Writes (s : Text) (m : Act Writer (Unit {0})) : Type 0 where
  pub at : (w : Writer) → Appends s (m w).0 w (m w).1

pub write-Writes : (device : Device) (s : Text) → Writes s (write device s)
unfolding write Appends
write-Writes device s = record { at = λ w. answered (device w.operations) w }
  where
    answered : (o : Option ℕ) (w : Writer) → Appends s (answer o s w).0 w (answer o s w).1
    answered none w = refl
    answered (some k) w = (k, refl)

pub pure-Writes : Writes [] (pure tt)
unfolding Appends
pure-Writes = record { at = λ w. sym (append-nil w.out) }

-- A front part of the first text is a front part of both.
take-append_front : (n : ℕ) (s r : Text) → (m : ℕ) × (take n s ≡ take m (s ++ r))
take-append_front zero s r = (0, refl)
take-append_front (suc n) [] r = (0, refl)
take-append_front (suc n) (c ∷ s) r =
    let (m, e) = take-append_front n s r in (suc m, ap (λ t. c ∷ t) e)

take-append_back : (n : ℕ) (s r : Text) → (m : ℕ) × (s ++ take n r ≡ take m (s ++ r))
take-append_back n [] r = (n, refl)
take-append_back n (c ∷ s) r = let (m, e) = take-append_back n s r in (suc m, ap (λ t. c ∷ t) e)

Appends-after :
    (s r : Text) (o : Outcome (Unit {0})) (w w' w'' : Writer)
    → w'.out ≡ w.out ++ s
    → Appends r o w' w''
    → Appends (s ++ r) o w w''
unfolding Appends
Appends-after s r (ok _) w w' w'' e h = cc (e, h, append_assoc w.out s r)
Appends-after s r (err x) w w' w'' e (n, h) =
    let (m, p) = take-append_back n s r in (m, cc (e, h, p, append_assoc w.out s (take n r)))
Appends-after s r panic w w' w'' e h = h

Appends-step :
    (s r : Text) (o : Outcome (Unit {0})) (k : Act Writer (Unit {0})) (w w' : Writer)
    → Appends s o w w'
    → Writes r k
    → Appends (s ++ r) (continue o (λ _. k) w').0 w (continue o (λ _. k) w').1
Appends-step s r (ok _) k w w' h wk =
    Appends-after s r (k w').0 w w' (k w').1 (unfold Appends in h) (wk.at w')
Appends-step s r (err x) k w w' h wk = unfold Appends in front (unfold Appends in h)
  where
    front : (n : ℕ) × (w'.out ≡ w.out ++ take n s) → (n : ℕ) × (w'.out ≡ w.out ++ take n (s ++ r))
    front (n, e) = let (m, p) = take-append_front n s r in (m, cc (e, p))
Appends-step s r panic k w w' h wk = unfold Appends in (unfold Appends in h)

pub bind-Writes :
    (s r : Text) (m k : Act Writer (Unit {0}))
    → Writes s m
    → Writes r k
    → Writes (s ++ r) (m >>= λ _. k)
bind-Writes s r m k wm wk = record { at = λ w. Appends-step s r (m w).0 k w (m w).1 (wm.at w) wk }

pub flush-Writes : (device : Device) → Writes [] (flush device)
unfolding flush Appends
flush-Writes device = record { at = λ w. answered (device w.operations) w }
  where
    answered : (o : Option ℕ) (w : Writer) → Appends [] (answer o [] w).0 w (answer o [] w).1
    answered none w = refl
    answered (some k) w = (k, refl)

pub Appends-ne-panic :
    (s : Text) (r : Outcome (Unit {0})) (w w' : Writer) → Appends s r w w' → r ≢ panic
unfolding Appends
Appends-ne-panic s (ok _) w w' h = λ e. cc
Appends-ne-panic s (err x) w w' h = λ e. cc
Appends-ne-panic s panic w w' h = absurd h
