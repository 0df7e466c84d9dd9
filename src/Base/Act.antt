-- ===== src/Base/Act.antt =====
-- Results of the program's fallible code, and actions on a state that may fail.
--
-- An `Outcome` is a value, an error (an `anyhow::Error`, of which the cause is kept and the text is
-- not) or a panic. An action keeps the state that it reached when it fails, as a method that
-- returns early with `?` does. `attempt` is `.ok()`: an error becomes `none`, and a panic goes through.
use mathlib.Core.Bool.{Bool, true, false}
use mathlib.Core.Option.{Option, none, some}

-- The causes of failure, one for each place of the program that makes an error.
pub data Error : Type 0 where
  readv_failed short_read : Error
  elf_parse elf_type elf_machine zts_symbols no_executor_globals : Error
  no_version bad_version bad_prologue null_cache : Error
  no_principal no_path open_failed bad_maps bad_range bad_number : Error
  no_task attach_failed wait_timeout wait_status wait_failed no_registers : Error
  io_failed no_selector no_process no_cgroup : Error
  -- No code of the program gives this: a loop of the model had too little fuel.
  out_of_fuel : Error

pub data Outcome {ℓ} (A : Type ℓ) : Type ℓ where
  ok : A → Outcome A
  err : Error → Outcome A
  panic : Outcome A

abbrev pub Act {ℓ} : Type 0 → Type ℓ → Type ℓ
Act S A = S → Outcome A × S

module _ {ℓ} {A : Type ℓ} where
  abbrev pub to_option : Outcome A → Outcome (Option A)
  to_option (ok a) = ok (some a)
  to_option (err e) = ok none
  to_option panic = panic

  abbrev pub default_of : A → Outcome A → Outcome A
  default_of d (ok a) = ok a
  default_of d (err e) = ok d
  default_of d panic = panic

module _ {ℓ} {S : Type 0} {A : Type ℓ} where
  abbrev pub pure : A → Act S A
  pure a s = (ok a, s)

  abbrev pub raise : Error → Act S A
  raise e s = (err e, s)

  abbrev pub lift : Outcome A → Act S A
  lift r s = (r, s)

  abbrev pub attempt : Act S A → Act S (Option A)
  attempt m s = let (r, s') = m s in (to_option r, s')

  -- `.unwrap_or(d)`
  abbrev pub unwrap_or : Act S A → A → Act S A
  unwrap_or m d s = let (r, s') = m s in (default_of d r, s')

module _ {ℓ κ} {A : Type ℓ} {B : Type κ} where
  abbrev pub bind : Outcome A → (A → Outcome B) → Outcome B
  bind (ok a) f = f a
  bind (err e) f = err e
  bind panic f = panic

module _ {ℓ κ} {S : Type 0} {A : Type ℓ} {B : Type κ} where
  abbrev pub continue : Outcome A → (A → Act S B) → Act S B
  continue (ok a) f s = f a s
  continue (err e) f s = (err e, s)
  continue panic f s = (panic, s)

  infixl 5 ◌>>=◌
  abbrev pub ◌>>=◌ : Act S A → (A → Act S B) → Act S B
  ◌>>=◌ m f s = let (r, s') = m s in continue r f s'

abbrev pub succeeds : Outcome (Unit {0}) → Bool
succeeds (ok _) = true
succeeds (err e) = false
succeeds panic = false

-- The first of two results that is no success.
abbrev pub then_result : Outcome (Unit {0}) → Outcome (Unit {0}) → Outcome (Unit {0})
then_result (ok _) next = next
then_result (err e) next = err e
then_result panic next = panic
