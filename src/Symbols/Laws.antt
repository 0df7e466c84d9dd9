-- ===== src/Symbols/Laws.antt =====
-- What `resolve` makes of the symbol tables of a binary.
use php_fast_profile.Base.{
  ℕ, List, [], ◌∷◌, ◌++◌, Option, none, some, Bool, true, false, ◌≡◌, refl, ◌∙◌, sym, ap, inl, inr,
  arith, if◌then◌else◌, ◌==◌, eqb, list_eq, nat_eq, list_beq_iff, Bool-cases,
}
use php_fast_profile.Base.Act.{Outcome, ok, err, panic, bind}
use mathlib.Core.Path.{subst}
use php_fast_profile.Base.Bytes.{add64}
use php_fast_profile.Base.Map.{lookup, lookup-insert}
use php_fast_profile.Base.Text.{Text, codes}
use php_fast_profile.Symbols.{
  bias_of, check_machine, expected_machine, both_addresses, Zts, Symbols, ResolveOptions, Symbol,
  ElfFile, Arch, apply_override, resolve_zts, resolve_executor_globals, Wanted, wanted_names, fill,
  scan_named, scan_symbols, found, resolve_addresses, resolve,
}

-- The address of the first symbol of a name.
pub first_named : Text → List Symbol → Option ℕ
first_named name [] = none
first_named name (s ∷ ss) =
    let later = first_named name ss in
    elim s.name [ none ↦ later | some n ↦ if eqb n name then some s.address else later ]

or_first : Option ℕ → Option ℕ → Option ℕ
or_first none later = later
or_first (some a) later = some a

fill_found :
    (name n : Text) (a : ℕ) (o : Option (Option ℕ)) (w : Wanted) (slot : Option ℕ)
    → lookup n w ≡ o
    → lookup name w ≡ some slot
    → lookup name (fill n a o w) ≡ some (if eqb n name then or_first slot (some a) else slot)
unfolding fill or_first
fill_found name n a none w slot e h = ground (arith, e, h, list_beq_iff n name)
fill_found name n a (some none) w slot e h =
    ground (arith, e, h, list_beq_iff n name, lookup-insert n name (some a) w)
fill_found name n a (some (some b)) w slot e h = ground (arith, e, h, list_beq_iff n name)

or_first_assoc :
    (slot later : Option ℕ) (b : Bool) (a : ℕ)
    → or_first (if b then or_first slot (some a) else slot) later
      ≡ or_first slot (if b then some a else later)
unfolding or_first
or_first_assoc none later true a = refl
or_first_assoc none later false a = refl
or_first_assoc (some c) later true a = refl
or_first_assoc (some c) later false a = refl

scan_named_found :
    (name : Text) (n : Option Text) (a : ℕ) (ss : List Symbol) (w : Wanted) (slot : Option ℕ)
    → lookup name w ≡ some slot
    → (next : Option ℕ) × (lookup name (scan_named n a w) ≡ some next)
      × (or_first next (first_named name ss)
          ≡ or_first slot (first_named name (record { name = n; address = a } ∷ ss)))
unfolding scan_named first_named
scan_named_found name none a ss w slot h = (slot, h, refl)
scan_named_found name (some n) a ss w slot h =
    (_, fill_found name n a (lookup n w) w slot refl h, or_first_assoc slot _ (eqb n name) a)

or_first-none : (slot : Option ℕ) → or_first slot none ≡ slot
unfolding or_first
or_first-none none = refl
or_first-none (some a) = refl

scan_symbols-lookup :
    (name : Text) (ss : List Symbol) (w : Wanted) (slot : Option ℕ)
    → lookup name w ≡ some slot
    → lookup name (scan_symbols ss w) ≡ some (or_first slot (first_named name ss))
unfolding scan_symbols first_named
scan_symbols-lookup name [] w slot h = h ∙ sym (ap some (or_first-none slot))
scan_symbols-lookup name (s ∷ ss) w slot h =
    let (next, h', e) = scan_named_found name s.name s.address ss w slot h in
    scan_symbols-lookup name ss (scan_named s.name s.address w) next h' ∙ ap some e

first_named-append :
    (name : Text) (ss ts : List Symbol)
    → first_named name (ss ++ ts) ≡ or_first (first_named name ss) (first_named name ts)
unfolding first_named or_first
first_named-append name [] ts = refl
first_named-append name (s ∷ ss) ts = ground (arith, first_named-append name ss ts)

-- Each of the names that `resolve` looks for.
abbrev pub IsWanted : Text → Type 0
IsWanted name = lookup name wanted_names ≡ some none

abbrev pub scanned : ElfFile → Wanted
scanned file = scan_symbols file.dynamic_symbols (scan_symbols file.symbols wanted_names)

-- After the scan of both tables, the slot of a wanted name holds the address of the first symbol of
-- that name, the static table before the dynamic one, and is empty if no symbol has it.
pub found-scanned :
    (file : ElfFile) (name : Text)
    → IsWanted name
    → found name (scanned file) ≡ first_named name (file.symbols ++ file.dynamic_symbols)
unfolding or_first
found-scanned file name h =
    rw
      (scan_symbols-lookup name file.dynamic_symbols _ _
        (scan_symbols-lookup name file.symbols wanted_names none h))
      (sym (first_named-append name file.symbols file.dynamic_symbols))

abbrev address_of : ElfFile → Text → Option ℕ
address_of file name = first_named name (file.symbols ++ file.dynamic_symbols)

-- Where a shared object or an executable was loaded.
pub data IsBias (file : ElfFile) (load_base : ℕ) : ℕ → Type 0 where
  shared : file.e_type ≡ 3 → IsBias file load_base load_base
  executable : file.e_type ≡ 2 → IsBias file load_base 0

-- The address of the executor globals: given by the user, of the symbol, or left to the walk of the
-- thread-local storage, for which its two symbols are there.
pub data IsGlobals (file : ElfFile) (opts : ResolveOptions) (bias : ℕ)
    : ℕ → Option Zts → Type 0 where
  given :
      {zts : Option Zts} (a : ℕ)
      → opts.executor_globals_override ≡ some a
      → IsGlobals file opts bias (apply_override a opts.load_base) zts
  symbol :
      {zts : Option Zts} (a : ℕ)
      → opts.executor_globals_override ≡ none
      → address_of file (codes "executor_globals") ≡ some a
      → IsGlobals file opts bias (add64 a bias) zts
  thread_local :
      (tcb eg : ℕ)
      → address_of file (codes "tsrm_get_ls_cache_tcb_offset") ≡ some tcb
      → address_of file (codes "executor_globals_offset") ≡ some eg
      → IsGlobals file opts bias 0
          (some (record { tcb_offset_fn = add64 tcb bias; eg_offset_var = add64 eg bias }))

pub record IsResolved (host : Arch) (file : ElfFile) (opts : ResolveOptions) (s : Symbols)
    : Type 0 where
  pub machine : file.e_machine ≡ expected_machine host
  pub bias : ℕ
  pub is_bias : IsBias file opts.load_base bias
  pub globals : IsGlobals file opts bias s.executor_globals s.zts

value_of : {A : Type 0} → A → Outcome A → A
value_of d (ok a) = a
value_of d (err e) = d
value_of d panic = d

module _ (file : ElfFile) (opts : ResolveOptions) (bias : ℕ) where
  IsGlobals-of :
      (v : Option ℕ) (g : ℕ) (zts : Option Zts) (s : Symbols)
      → IsGlobals file opts bias g zts
      → ok (record { executor_globals = g; php_version = v; zts = zts }) ≡ ok s
      → IsGlobals file opts bias s.executor_globals s.zts
  unfolding value_of
  IsGlobals-of v g zts s h e =
      subst (λ x. IsGlobals file opts bias x.executor_globals x.zts) (ap (value_of s) e) h

  answer_of : Option ℕ → Outcome (Option Zts) → Outcome ℕ → Outcome Symbols
  answer_of v r rg =
      bind r λ zts. bind rg λ g. ok (record { executor_globals = g; php_version = v; zts = zts })

  with_known :
      (v : Option ℕ) (r : Outcome (Option Zts)) (g : ℕ) (s : Symbols)
      → ((zts : Option Zts) → IsGlobals file opts bias g zts)
      → answer_of v r (ok g) ≡ ok s
      → IsGlobals file opts bias s.executor_globals s.zts
  unfolding answer_of
  with_known v (ok zts) g s h e = IsGlobals-of v g zts s (h zts) e
  with_known v (err x) g s h e = cc
  with_known v panic g s h e = cc

  located :
      (given_at sym tcb eg v : Option ℕ) (is_zts : Bool) (s : Symbols)
      → opts.executor_globals_override ≡ given_at
      → address_of file (codes "executor_globals") ≡ sym
      → address_of file (codes "tsrm_get_ls_cache_tcb_offset") ≡ tcb
      → address_of file (codes "executor_globals_offset") ≡ eg
      → answer_of v
          (resolve_zts tcb eg is_zts bias)
          (resolve_executor_globals given_at sym is_zts opts.allow_stripped opts.load_base bias)
        ≡ ok s
      → IsGlobals file opts bias s.executor_globals s.zts
  unfolding answer_of resolve_zts resolve_executor_globals both_addresses
  located (some a) sym tcb eg v z s p q t u e =
      with_known v (resolve_zts tcb eg z bias) _ s (λ zts. given a p) e
  located none (some a) tcb eg v z s p q t u e =
      with_known v (resolve_zts tcb eg z bias) _ s (λ zts. symbol a p q) e
  located none none (some tcb) (some eg) v true s p q t u e =
      IsGlobals-of v 0 _ s (thread_local tcb eg t u) e
  located none none none eg v true s p q t u e = cc
  located none none (some tcb) none v true s p q t u e = cc
  located none none tcb eg v false s p q t u e = cc

  located_all :
      (s : Symbols)
      → resolve_addresses (scanned file) bias opts ≡ ok s
      → IsGlobals file opts bias s.executor_globals s.zts
  unfolding resolve_addresses answer_of lookup
  located_all s e =
      located opts.executor_globals_override _ _ _ _ _ s refl
        (sym (found-scanned file (codes "executor_globals") refl))
        (sym (found-scanned file (codes "tsrm_get_ls_cache_tcb_offset") refl))
        (sym (found-scanned file (codes "executor_globals_offset") refl)) e

-- If `resolve` succeeds, the binary is of the profiler's architecture and a shared object or an
-- executable, and the address of the executor globals is the user's, or that of the first symbol
-- of that name, moved by the load address if it is a shared object; or it is left open for a
-- thread-safe build, whose two symbols were then found.
pub resolve_lem :
    (host : Arch) (file : ElfFile) (opts : ResolveOptions) (s : Symbols)
    → resolve host (some file) opts ≡ ok s
    → IsResolved host file opts s
unfolding resolve bias_of check_machine
resolve_lem host file opts s e = elim (Bool-cases (file.e_machine == expected_machine host)) [
  | inr differs ↦ absurd (ground (arith, differs))
  | inl same ↦ elim (Bool-cases (file.e_type == 3)) [
    | inl three ↦ record {
      machine = ground (arith, same);
      bias = opts.load_base;
      is_bias = shared (ground (arith, three));
      globals = located_all file opts opts.load_base s (ground (arith, same, three));
    }
    | inr other ↦ elim (Bool-cases (file.e_type == 2)) [
      | inr third ↦ absurd (ground (arith, other, third))
      | inl two ↦ record {
        machine = ground (arith, same);
        bias = 0;
        is_bias = executable (ground (arith, two));
        globals = located_all file opts 0 s (ground (arith, same, other, two));
      }
    ]
  ]
]
