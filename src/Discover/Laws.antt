-- ===== src/Discover/Laws.antt =====
-- Which processes a discovery finds.
use php_fast_profile.Base.{
  ℕ, List, [], ◌∷◌, Option, none, some, Bool, true, false, ◌&&◌, ◌||◌, any, ◌==◌, ==_iff, ◌≡◌, refl,
  ap, ◌∙◌, arith, if◌then◌else◌,
}
use php_fast_profile.Base.Act.{ok}
use php_fast_profile.Base.Text.{Text}
use php_fast_profile.Discover.Filter.{passes, is_match-matches}
use php_fast_profile.Discover.{
  ProcFiles, ProcessFilter, matches, is_match, pid_of, insert_pid, visit, visit_all, discover,
}

abbrev pub is_in : ℕ → List ℕ → Bool
is_in pid out = any (λ q. q == pid) out

-- Whether an entry of /proc is a number.
abbrev pub is_entry_of : ℕ → Option ℕ → Bool
is_entry_of pid none = false
is_entry_of pid (some q) = q == pid

-- No pid is twice in the list.
abbrev pub IsDistinct : List ℕ → Type 0
IsDistinct [] = Unit
IsDistinct (q ∷ out) = (is_in q out ≡ false) × IsDistinct out

module _ (files : ℕ → ProcFiles) (f : ProcessFilter) where
  is_in-visit :
      (pid : ℕ) (o : Option ℕ) (out : List ℕ)
      → is_in pid (visit files f o out)
        ≡ is_in pid out || (is_entry_of pid o && is_match (matches (files pid) f))
  unfolding visit insert_pid
  is_in-visit pid none out = ground arith
  is_in-visit pid (some q) out =
      visited pid q out (is_match (matches (files q) f)) (is_match (matches (files pid) f))
        λ e. ap (λ p. is_match (matches (files p) f)) ((==_iff q pid).0 e)
    where
      visited :
          (pid q : ℕ) (out : List ℕ) (m n : Bool)
          → ((q == pid) ≡ true → m ≡ n)
          → is_in pid (if m then insert_pid q out else out) ≡ is_in pid out || ((q == pid) && n)
      visited pid q out true true h = ground arith
      visited pid q out true false h = ground (arith, h)
      visited pid q out false true h = ground (arith, h)
      visited pid q out false false h = ground arith

  IsDistinct-visit :
      (o : Option ℕ) (out : List ℕ) → IsDistinct out → IsDistinct (visit files f o out)
  unfolding visit insert_pid
  IsDistinct-visit none out h = h
  IsDistinct-visit (some q) out h = ground (arith, h)

  -- Whether one of the entries has the number.
  abbrev is_listed : ℕ → List (Option Text) → Bool
  is_listed pid entries = any (λ name. is_entry_of pid (pid_of name)) entries

  is_in-visit_all :
      (pid : ℕ) (entries : List (Option Text)) (out : List ℕ)
      → is_in pid (visit_all files f entries out)
        ≡ is_in pid out || (is_listed pid entries && is_match (matches (files pid) f))
  unfolding visit_all
  is_in-visit_all pid [] out = ground arith
  is_in-visit_all pid (name ∷ entries) out =
      listed (is_in pid (visit files f (pid_of name) out)) (is_in pid out)
        (is_entry_of pid (pid_of name)) (is_listed pid entries) (is_match (matches (files pid) f)) _
        (is_in-visit_all pid entries (visit files f (pid_of name) out))
        (is_in-visit pid (pid_of name) out)
    where
      listed :
          (found before here later m after : Bool)
          → after ≡ found || (later && m)
          → found ≡ before || (here && m)
          → after ≡ before || ((here || later) && m)
      listed found before here later m after e₁ e₂ = ground (arith, e₁, e₂)

  IsDistinct-visit_all :
      (entries : List (Option Text)) (out : List ℕ)
      → IsDistinct out
      → IsDistinct (visit_all files f entries out)
  unfolding visit_all
  IsDistinct-visit_all [] out h = h
  IsDistinct-visit_all (name ∷ entries) out h =
      IsDistinct-visit_all entries (visit files f (pid_of name) out)
        (IsDistinct-visit (pid_of name) out h)

-- The pids of a discovery: those that are names of entries and whose process passes, each once.
pub record IsDiscovery (files : ℕ → ProcFiles) (f : ProcessFilter) (entries : List (Option Text))
    (out : List ℕ) : Type 0 where
  pub found :
      (pid : ℕ)
      → is_in pid out ≡ any (λ name. is_entry_of pid (pid_of name)) entries && passes (files pid) f
  pub distinct : IsDistinct out

-- If /proc can be read, a discovery finds exactly the processes that an entry names and that pass
-- the filter, each once. A process passes if each text that is asked for is part of what it shows:
-- of its trimmed name, of its command line with spaces for the NULs, and of its trimmed control
-- group, which counts as empty if it cannot be read; a name or a command line that is asked for and
-- cannot be read does not pass, and a file that is not asked for does not matter.
pub discover_lem :
    (files : ℕ → ProcFiles) (f : ProcessFilter) (entries : List (Option Text))
    → (out : List ℕ) × (discover files f (some entries) ≡ ok out) × IsDiscovery files f entries out
unfolding discover
discover_lem files f entries = (
  visit_all files f entries [],
  refl,
  record {
    found = λ pid.
        is_in-visit_all files f pid entries []
        ∙ ap (λ b. any (λ name. is_entry_of pid (pid_of name)) entries && b)
            (is_match-matches (files pid) f);
    distinct = IsDistinct-visit_all files f entries [] tt;
  },
)
