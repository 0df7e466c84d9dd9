-- ===== src/Zend/Walker/Coherence.antt =====
-- The cache is transparent: strings, names and classes are read right, whatever it holds.
use php_fast_profile.Base.{
  ℕ, ◌^◌, ◌<◌, List, true, false, Option, none, some, length, ◌≡◌, refl, ◌≢◌, inl, inr, arith, ltb,
  ◌==◌, ==_iff, nat_eq, Bool-cases,
}
use php_fast_profile.Base.Act.{ok}
use php_fast_profile.Base.Bytes.{to_le_bytes}
use php_fast_profile.Base.Gives.{Gives, Gives-pure, Gives-true, Gives-false, Gives-bind}
use php_fast_profile.Base.Map.{lookup, insert, lookup-insert}
use php_fast_profile.Base.Text.{Text}
use php_fast_profile.Remote
use php_fast_profile.Remote.{Remote, Io}
use php_fast_profile.Zend.Reads.{read_zend_string}
use php_fast_profile.Zend.Walker.{
  Walker, io, remember, cached, read_zstring_cached, optional_string, read_function, read_class,
}
use php_fast_profile.Zend.Walker.Stored.{
  Stores, HoldsString, HoldsOptional, null, points, HoldsName, main, named, HoldsClass, no_scope,
  scoped,
}
use php_fast_profile.Zend.Walker.Regions.{
  Always, always, read-Stores, read_u64-Stores, read_zend_string-HoldsString,
}

-- Every cached string is what a read of it would return now.
abbrev pub IsCoherent : Remote → Walker → Type 0
IsCoherent rem w =
    (a : ℕ) (s : Text)
    → lookup a w.string_cache ≡ some s
    → (t : ℕ) → (read_zend_string rem a t).0 ≡ ok s

module _ (rem : Remote) where
  pub io-Gives :
      {A : Type 0} (m : Io A) (a : A) → Gives Always m a → Gives (IsCoherent rem) (io m) a
  unfolding io
  io-Gives m a g = record { at = λ w inv. ((g.at w.calls tt).0, inv) }

  insert-IsCoherent :
      (a j : ℕ) (s x : Text) (w : Walker)
      → ((t : ℕ) → (read_zend_string rem a t).0 ≡ ok s)
      → IsCoherent rem w
      → lookup j (insert a s w.string_cache) ≡ some x
      → (t : ℕ) → (read_zend_string rem j t).0 ≡ ok x
  insert-IsCoherent a j s x w h inv found t = elim (Bool-cases (a == j)) [
    | inl e ↦ cc (found, e, lookup-insert a j s w.string_cache, (==_iff a j).0 e, h t)
    | inr e ↦ inv j x (ground (arith, found, e, lookup-insert a j s w.string_cache)) t
  ]

  remember-Gives :
      (a : ℕ) (s : Text)
      → ((t : ℕ) → (read_zend_string rem a t).0 ≡ ok s)
      → Gives (IsCoherent rem) (remember a s) s
  unfolding remember
  remember-Gives a s h = record {
    at = λ w inv. elim (Bool-cases (ltb (length w.string_cache) 8192)) [
      | inl e ↦ rw e (refl, λ j x found t. insert-IsCoherent a j s x w h inv found t)
      | inr e ↦ rw e (refl, inv)
    ];
  }

  cached-Gives :
      (a : ℕ) (o : Option Text) (s : Text)
      → HoldsString rem a s
      → ((x : Text) → o ≡ some x → x ≡ s)
      → Gives (IsCoherent rem) (cached rem a o) s
  unfolding cached
  cached-Gives a (some x) s h same = rw (same x refl) (Gives-pure s)
  cached-Gives a none s h same =
      Gives-bind _ _ s s (io-Gives _ s (read_zend_string-HoldsString rem a h))
        (remember-Gives a s (λ t. ((read_zend_string-HoldsString rem a h).at t tt).0))

  -- A string is read right from the cache or from the target.
  pub read_zstring_cached-Gives :
      (a : ℕ) {s : Text}
      → HoldsString rem a s
      → Gives (IsCoherent rem) (read_zstring_cached rem a) s
  unfolding read_zstring_cached
  read_zstring_cached-Gives a {s} h = record {
    at = λ w inv.
        (cached-Gives a (lookup a w.string_cache) s h (λ x found.
            cc (inv a x found 0, ((read_zend_string-HoldsString rem a h).at 0 tt).0))).at
          w inv;
  }

  -- A word that is stored is read past the cache.
  pub stored_word :
      (a v : ℕ)
      → v < 2 ^ 64
      → Stores rem a (to_le_bytes 8 v)
      → Gives (IsCoherent rem) (io (Remote.read_u64 rem a)) v
  stored_word a v lt h = io-Gives _ v (always _ v (λ t. read_u64-Stores rem a t lt h))

  pub stored_buffer :
      (a n : ℕ) (buf : List ℕ)
      → length buf ≡ n
      → 0 < n
      → Stores rem a buf
      → Gives (IsCoherent rem) (io (Remote.read rem a n)) buf
  stored_buffer a n buf e pos h = io-Gives _ buf (always _ buf (λ t. read-Stores rem a n t e pos h))

  pub test_false : (a : ℕ) → a ≢ 0 → (a == 0) ≡ false
  test_false a h = ground arith

  pub test_true : (a b : ℕ) → a ≡ b → (a == b) ≡ true
  test_true a b h = ground arith

  pub optional_string-Gives :
      (ptr : ℕ) {o : Option Text}
      → HoldsOptional rem ptr o
      → Gives (IsCoherent rem) (optional_string rem ptr) o
  unfolding optional_string
  optional_string-Gives ptr (null e) =
      Gives-true (ptr == 0) _ _ (test_true ptr 0 e) (Gives-pure none)
  optional_string-Gives ptr (points {s} ne h) =
      Gives-false (ptr == 0) _ _ (test_false ptr ne)
        (Gives-bind _ _ s _ (read_zstring_cached-Gives ptr h) (Gives-pure (some s)))

  pub read_function-Gives :
      (ptr : ℕ) {s : Text} → HoldsName rem ptr s → Gives (IsCoherent rem) (read_function rem ptr) s
  unfolding read_function
  read_function-Gives ptr (main e) = Gives-true (ptr == 0) _ _ (test_true ptr 0 e) (Gives-pure _)
  read_function-Gives ptr (named ne h) =
      Gives-false (ptr == 0) _ _ (test_false ptr ne) (read_zstring_cached-Gives ptr h)

  pub read_class-Gives :
      (scope : ℕ) {o : Option Text}
      → HoldsClass rem scope o
      → Gives (IsCoherent rem) (read_class rem scope) o
  unfolding read_class
  read_class-Gives scope (no_scope e) =
      Gives-true (scope == 0) _ _ (test_true scope 0 e) (Gives-pure none)
  read_class-Gives scope (scoped name ne lt at h) =
      Gives-false (scope == 0) _ _ (test_false scope ne)
        (Gives-bind _ _ name _ (stored_word _ name lt at) (optional_string-Gives name h))
