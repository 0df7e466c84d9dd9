-- ===== src/Target/Attach/Origins.antt =====
-- src/target.rs, `Target::attach`: what the version and the executor globals of a target come from.
use php_fast_profile.Base.{ℕ, zero, suc, Option, none, some, ◌≡◌, ◌≢◌, arith}
use mathlib.Core.Path.{subst}
use php_fast_profile.Base.Act.{ok}
use php_fast_profile.Base.Text.{Text}
use php_fast_profile.Symbols.{Zts}
use php_fast_profile.Target.Attach.{Machine, locate_globals, detect_version}
use php_fast_profile.Target.Prologue.{read_php_version}
use php_fast_profile.Tls.{resolve_zts_executor_globals}

-- What the version of an attached target comes from: the user's, or the literal of the binary, or
-- what the accessor in the target returns.
pub data IsDetected (m : Machine) (pid : ℕ) (version : Text)
    : Option Text → Option Text → Option ℕ → Type 0 where
  given :
      {literal : Option Text} {addr : Option ℕ}
      → IsDetected m pid version (some version) literal addr
  literal_of_binary : {addr : Option ℕ} → IsDetected m pid version none (some version) addr
  returned_by :
      {addr : ℕ} (k : ℕ)
      → (read_php_version m.host (m.memory pid) addr k).0 ≡ ok version
      → IsDetected m pid version none none (some addr)

-- What the executor globals of an attached target come from: the symbols, if they name them or the
-- binary is not thread-safe, or else the walk through the thread-local storage.
pub data IsLocated (m : Machine) (pid globals : ℕ) : Option Zts → ℕ → Type 0 where
  static : IsLocated m pid globals none globals
  named : {zts : Zts} → globals ≢ 0 → IsLocated m pid globals (some zts) globals
  walked :
      {zts : Zts} (k : ℕ)
      → (resolve_zts_executor_globals m.host m.kernel
          (m.tasks pid)
          (m.memory pid)
          pid
          zts.tcb_offset_fn
          zts.eg_offset_var
          k).0
        ≡ ok globals
      → IsLocated m pid globals (some zts) 0

pub locate_globals-IsLocated :
    (m : Machine) (pid : ℕ) (zts : Option Zts) (eg k globals : ℕ)
    → (locate_globals m pid zts eg k).0 ≡ ok globals
    → IsLocated m pid globals zts eg
unfolding locate_globals
locate_globals-IsLocated m pid none eg k globals e =
    subst (λ g. IsLocated m pid g none eg) (ground (arith, e)) static
locate_globals-IsLocated m pid (some zts) zero k globals e = walked k e
locate_globals-IsLocated m pid (some zts) (suc eg) k globals e =
    let same : suc eg ≡ globals = ground (arith, e) in
    subst (λ g. IsLocated m pid g (some zts) (suc eg)) same (named (omega arith))

pub detect_version-IsDetected :
    (m : Machine) (pid : ℕ) (wanted literal : Option Text) (addr : Option ℕ) (k : ℕ)
    (version : Text)
    → (detect_version m pid wanted literal addr k).0 ≡ ok version
    → IsDetected m pid version wanted literal addr
unfolding detect_version
detect_version-IsDetected m pid (some s) literal addr k version e =
    let same : s ≡ version = ground (arith, e) in
    subst (λ v. IsDetected m pid v (some s) literal addr) same given
detect_version-IsDetected m pid none (some s) addr k version e =
    let same : s ≡ version = ground (arith, e) in
    subst (λ v. IsDetected m pid v none (some s) addr) same literal_of_binary
detect_version-IsDetected m pid none none (some addr) k version e = returned_by k e
detect_version-IsDetected m pid none none none k version e = cc
