-- ===== src/Proc/Laws.antt =====
-- Which mapping `principal_binary` chooses.
use php_fast_profile.Base.{
  ℕ, ◌≤◌, List, [], ◌∷◌, ◌++◌, All, Option, none, some, Bool, true, false, ◌≡◌, refl, ◌∙◌, ◌↔◌, ◌⊎◌,
  inl, inr, arith, ltb, if◌then◌else◌, list_eq, nat_eq, list_beq_iff, Bool-cases, Option-cases, sym,
  ap,
}
use mathlib.Core.Path.{subst}
use php_fast_profile.Base.Text.{Text}
use php_fast_profile.Proc.{
  MapEntry, is_text, is_on_disk, first_text, has_path, with_path, least_from, least, load_of,
  principal_of, principal_binary,
}

abbrev pub Occurs : MapEntry → List MapEntry → Type 0
Occurs m [] = ⊥
Occurs m (n ∷ maps) = (m ≡ n) ⊎ Occurs m maps

-- The lowest mapping of a file.
pub record IsLoad (path : Text) (maps : List MapEntry) (m : MapEntry) : Type 0 where
  pub same : m.path ≡ some path
  pub listed : Occurs m maps
  pub least : All (λ e. (e.path ≡ some path) → m.start ≤ e.start) maps

pub data IsPrincipal (maps : List MapEntry) : Option MapEntry → Type 0 where
  nothing : All (λ e. is_text e ≡ false) maps → IsPrincipal maps none
  load :
      {m : MapEntry} (front back : List MapEntry) (text : MapEntry) (path : Text)
      → maps ≡ front ++ (text ∷ back)
      → All (λ e. is_text e ≡ false) front
      → is_text text ≡ true
      → text.path ≡ some path
      → IsLoad path maps m
      → IsPrincipal maps (some m)

smaller : MapEntry → MapEntry → MapEntry
smaller m n = if ltb n.start m.start then n else m

smaller_lem : (m n : MapEntry) → ((smaller m n).start ≤ m.start) × ((smaller m n).start ≤ n.start)
unfolding smaller
smaller_lem m n = (ground arith, ground arith)

All-≤ :
    {a b : ℕ} (maps : List MapEntry)
    → a ≤ b
    → All (λ e. b ≤ e.start) maps
    → All (λ e. a ≤ e.start) maps
All-≤ [] h k = tt
All-≤ (e ∷ maps) h (ke, k) = (omega arith, All-≤ maps h k)

-- The entry that the search for the least ends with lies below all others.
least_from-start :
    (m : MapEntry) (maps : List MapEntry)
    → ((least_from m maps).start ≤ m.start) × All (λ e. (least_from m maps).start ≤ e.start) maps
unfolding least_from smaller
least_from-start m [] = (omega arith, tt)
least_from-start m (n ∷ maps) =
    let (h, k) = least_from-start (smaller m n) maps in
    let (hm, hn) = smaller_lem m n in (omega arith, (omega arith, k))

smaller_cases : (m n : MapEntry) → (smaller m n ≡ m) ⊎ (smaller m n ≡ n)
unfolding smaller
smaller_cases m n = elim (Bool-cases (ltb n.start m.start)) [
  | inl e ↦ rw e (inr refl)
  | inr e ↦ rw e (inl refl)
]

least_from-Occurs :
    (m : MapEntry) (maps : List MapEntry)
    → (least_from m maps ≡ m) ⊎ Occurs (least_from m maps) maps
unfolding least_from smaller
least_from-Occurs m [] = inl refl
least_from-Occurs m (n ∷ maps) = elim (least_from-Occurs (smaller m n) maps) [
  | inr h ↦ inr (inr h)
  | inl h ↦ elim (smaller_cases m n) [ inl e ↦ inl (h ∙ e) | inr e ↦ inr (inl (h ∙ e)) ]
]

has_path-lem : (path : Text) (o : Option Text) → (has_path path o ≡ true) ↔ (o ≡ some path)
unfolding has_path
has_path-lem path none = (λ e. cc, λ e. cc)
has_path-lem path (some p) = ground (arith, list_beq_iff p path)

-- The entries of one file are those entries that have its path.
with_path-Occurs :
    (path : Text) (m : MapEntry) (maps : List MapEntry)
    → Occurs m (with_path path maps)
    → (m.path ≡ some path) × Occurs m maps
unfolding with_path
with_path-Occurs path m [] h = elim h [ ]
with_path-Occurs path m (n ∷ maps) h =
    kept (has_path path n.path) refl (with_path-Occurs path m maps) h
  where
    kept :
        (b : Bool)
        → has_path path n.path ≡ b
        → (Occurs m (with_path path maps) → (m.path ≡ some path) × Occurs m maps)
        → Occurs m (if b then n ∷ with_path path maps else with_path path maps)
        → (m.path ≡ some path) × (m ≡ n ⊎ Occurs m maps)
    kept true e later (inl h) = (cc (h, (has_path-lem path n.path).0 e), inl h)
    kept true e later (inr h) = let (p, q) = later h in (p, inr q)
    kept false e later h = let (p, q) = later h in (p, inr q)

All-with_path :
    (path : Text) (a : ℕ) (maps : List MapEntry)
    → All (λ e. a ≤ e.start) (with_path path maps)
    → All (λ e. (e.path ≡ some path) → a ≤ e.start) maps
unfolding with_path
All-with_path path a [] h = tt
All-with_path path a (n ∷ maps) h = kept (has_path path n.path) refl (All-with_path path a maps) h
  where
    kept :
        (b : Bool)
        → has_path path n.path ≡ b
        → (All (λ e. a ≤ e.start) (with_path path maps)
            → All (λ e. (e.path ≡ some path) → a ≤ e.start) maps)
        → All (λ e. a ≤ e.start) (if b then n ∷ with_path path maps else with_path path maps)
        → (n.path ≡ some path → a ≤ n.start) × All (λ e. (e.path ≡ some path) → a ≤ e.start) maps
    kept true e later (hn, h) = (λ _. hn, later h)
    kept false e later h = (λ same. cc (e, (has_path-lem path n.path).1 same), later h)

-- What the search for the first text mapping stops at.
data IsFirst (maps : List MapEntry) : Option MapEntry → Type 0 where
  missing : All (λ e. is_text e ≡ false) maps → IsFirst maps none
  first :
      (front back : List MapEntry) (text : MapEntry)
      → maps ≡ front ++ (text ∷ back)
      → All (λ e. is_text e ≡ false) front
      → is_text text ≡ true
      → IsFirst maps (some text)

IsFirst-later :
    (m : MapEntry) (maps : List MapEntry) {o : Option MapEntry}
    → is_text m ≡ false
    → IsFirst maps o
    → IsFirst (m ∷ maps) o
IsFirst-later m maps e (missing h) = missing (e, h)
IsFirst-later m maps e (first front back text p h t) =
    first (m ∷ front) back text (ap (λ ms. m ∷ ms) p) (e, h) t

first_text-IsFirst : (maps : List MapEntry) → IsFirst maps (first_text maps)
unfolding first_text
first_text-IsFirst [] = missing tt
first_text-IsFirst (m ∷ maps) = elim (Bool-cases (is_text m)) [
  | inl e ↦ rw e (first [] maps m refl tt e)
  | inr e ↦ rw e (IsFirst-later m maps e (first_text-IsFirst maps))
]

-- A text mapping has a path.
text_path : (m : MapEntry) → is_text m ≡ true → (path : Text) × (m.path ≡ some path)
unfolding is_text is_on_disk
text_path m h = elim (Option-cases m.path) [
  | inl e ↦ absurd (ground (arith, e))
  | inr (p, e) ↦ (p, e)
]

listed_text :
    (path : Text) (front back : List MapEntry) (text : MapEntry)
    → text.path ≡ some path
    → Occurs text (with_path path (front ++ (text ∷ back)))
unfolding with_path
listed_text path [] back text h = rw ((has_path-lem path text.path).1 h) (inl refl)
listed_text path (m ∷ front) back text h = elim (Bool-cases (has_path path m.path)) [
  | inl e ↦ rw e (inr (listed_text path front back text h))
  | inr e ↦ rw e (listed_text path front back text h)
]

least-IsLoad :
    (path : Text) (maps entries : List MapEntry) (text : MapEntry)
    → with_path path maps ≡ entries
    → Occurs text entries
    → (m : MapEntry) × (least entries ≡ some m) × IsLoad path maps m
unfolding least
least-IsLoad path maps [] text e h = elim h [ ]
least-IsLoad path maps (n ∷ entries) text e h =
    let (same, listed) =
      with_path-Occurs path (least_from n entries) maps
        (subst (λ ms. Occurs (least_from n entries) ms) (sym e) (least_from-Occurs n entries)) in
    (
      least_from n entries,
      refl,
      record {
        same = same;
        listed = listed;
        least = All-with_path path _ maps (
            subst (λ ms. All (λ x. (least_from n entries).start ≤ x.start) ms) (sym e)
              (least_from-start n entries));
      },
    )

chosen :
    {o : Option MapEntry} (maps : List MapEntry)
    → IsFirst maps o
    → IsPrincipal maps (principal_of o maps)
unfolding principal_of load_of
chosen maps (missing h) = nothing h
chosen maps (first front back text e h t) =
    let (path, at) = text_path text t in
    let (m, found, is_load) = least-IsLoad path maps (with_path path maps) text refl (
      subst (λ ms. Occurs text (with_path path ms)) (sym e)
        (listed_text path front back text at)) in
    subst (λ o. IsPrincipal maps (load_of o maps)) (sym at)
      (subst (λ o. IsPrincipal maps o) (sym found) (load front back text path e h t at is_load))

-- If no mapping is private, executable and of a file on disk, `principal_binary` finds none.
-- Otherwise it finds the lowest mapping of the file of the first such mapping.
pub principal_binary_lem : (maps : List MapEntry) → IsPrincipal maps (principal_binary maps)
unfolding principal_binary
principal_binary_lem maps = chosen maps (first_text-IsFirst maps)
