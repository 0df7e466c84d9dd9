-- ===== src/Zend/Reads/Calls.antt =====
-- How many calls a search of a hash table makes, and that it does not panic.
use php_fast_profile.Base.{
  ℕ, zero, suc, ◌+◌, ◌*◌, ◌≤◌, min, Option, none, some, Bool, true, false, ◌≡◌, ◌≢◌, refl, arith,
  list_eq, nat_eq, if◌then◌else◌,
}
use php_fast_profile.Base.Act.{Outcome, ok, err, panic, pure, continue, ◌>>=◌}
use php_fast_profile.Base.Safe.{
  Safe, Safe-pure, Safe-if, Safe-attempt, Safe-unwrap_or, Safe-bind, Safe-weaken,
}
use php_fast_profile.Base.Bytes.{add64}
use php_fast_profile.Base.Text.{Text}
use php_fast_profile.Offsets.Bucket
use php_fast_profile.Remote.{Remote, Io}
use php_fast_profile.Zend.Reads.{
  Round, skip, answer, search_loop, tag_of, string_value, referenced_value, matched_value, keyed,
  bucket_round, ht_get_string,
}
use php_fast_profile.Zend.Walker.Budget.{
  Spent, Spent-IsMonotone, read_u64-Safe, read_u32-Safe, read_zend_string-Safe,
}

-- A round that does not panic, and makes at most `a` calls if it goes on and `x` more if it ends the
-- loop.
pub record SafeRound {A : Type 0} (a x : ℕ) (m : Io (Round A)) : Type 0 where
  pub at :
      (t : ℕ) → ((m t).0 ≢ panic) × ((m t).1 ≤ t + (a + x)) × ((m t).0 ≡ ok skip → (m t).1 ≤ t + a)

-- A round that ends the loop, by at most `n` calls.
pub record Last {A : Type 0} (n : ℕ) (m : Io (Round A)) : Type 0 where
  pub at : (t : ℕ) → ((m t).0 ≢ panic) × ((m t).1 ≤ t + n) × ((m t).0 ≢ ok skip)

module _ {A : Type 0} where
  pub Last-answer : (n : ℕ) (v : A) → Last n (pure (answer v))
  Last-answer n v = record { at = λ t. ((λ e. cc), omega arith, (λ e. cc)) }

  pub Last-if :
      (n : ℕ) (b : Bool) (m p : Io (Round A)) → Last n m → Last n p → Last n (if b then m else p)
  Last-if n true m p hm hp = hm
  Last-if n false m p hm hp = hp

  pub SafeRound-Last : (a x : ℕ) (m : Io (Round A)) → Last x m → SafeRound a x m
  SafeRound-Last a x m h = record {
    at =
        λ t. let (calm, calls, ends) = h.at t in (calm, omega (arith, calls), λ e. absurd (ends e));
  }

  pub SafeRound-skip : (a x : ℕ) → SafeRound {A = A} a x (pure skip)
  SafeRound-skip a x = record { at = λ t. ((λ e. cc), omega arith, λ e. omega arith) }

  pub SafeRound-if :
      (a x : ℕ) (b : Bool) (m p : Io (Round A))
      → SafeRound a x m
      → SafeRound a x p
      → SafeRound a x (if b then m else p)
  SafeRound-if a x true m p hm hp = hm
  SafeRound-if a x false m p hm hp = hp

module _ {A B : Type 0} where
  Last-continue :
      (a b : ℕ) (r : Outcome A) (f : A → Io (Round B)) (t u : ℕ)
      → u ≤ t + a
      → r ≢ panic
      → ((v : A) → Last b (f v))
      → ((continue r f u).0 ≢ panic)
        × ((continue r f u).1 ≤ t + (a + b))
        × ((continue r f u).0 ≢ ok skip)
  Last-continue a b (ok v) f t u le h hf =
      let (calm, calls, ends) = (hf v).at u in (calm, omega (arith, calls), ends)
  Last-continue a b (err e) f t u le h hf = ((λ p. cc), omega arith, λ p. cc)
  Last-continue a b panic f t u le h hf = absurd (h refl)

  pub Last-bind :
      (a b : ℕ) (m : Io A) (f : A → Io (Round B))
      → Safe Spent a m
      → ((v : A) → Last b (f v))
      → Last (a + b) (m >>= f)
  Last-bind a b m f sm hf = record {
    at = λ t.
        let (h, le) = sm.at t (t + a) t (omega arith) (omega arith) in
        Last-continue a b (m t).0 f t (m t).1 le h hf;
  }

  SafeRound-continue :
      (a b x : ℕ) (r : Outcome A) (f : A → Io (Round B)) (t u : ℕ)
      → u ≤ t + a
      → r ≢ panic
      → ((v : A) → SafeRound b x (f v))
      → ((continue r f u).0 ≢ panic)
        × ((continue r f u).1 ≤ t + (a + b + x))
        × ((continue r f u).0 ≡ ok skip → (continue r f u).1 ≤ t + (a + b))
  SafeRound-continue a b x (ok v) f t u le h hf =
      let (calm, calls, skips) = (hf v).at u in
      (calm, omega (arith, calls), λ e. omega (arith, skips e))
  SafeRound-continue a b x (err e) f t u le h hf = ((λ p. cc), omega arith, λ p. cc)
  SafeRound-continue a b x panic f t u le h hf = absurd (h refl)

  pub SafeRound-bind :
      (a b x : ℕ) (m : Io A) (f : A → Io (Round B))
      → Safe Spent a m
      → ((v : A) → SafeRound b x (f v))
      → SafeRound (a + b) x (m >>= f)
  SafeRound-bind a b x m f sm hf = record {
    at = λ t.
        let (h, le) = sm.at t (t + a) t (omega arith) (omega arith) in
        SafeRound-continue a b x (m t).0 f t (m t).1 le h hf;
  }

suc-mul : (n a : ℕ) → suc n * a ≡ n * a + a
suc-mul n a = omega arith

module _ {A : Type 0} (a x : ℕ) (round : ℕ → Io (Round A)) (last : A)
    (h : (i : ℕ) → SafeRound a x (round i)) where
  loop_bound :
      (n i : ℕ) (t : ℕ)
      → ((search_loop round last n i t).0 ≢ panic)
        × ((search_loop round last n i t).1 ≤ t + (n * a + x))
  unfolding search_loop
  loop_bound zero i t = ((λ e. cc), omega arith)
  loop_bound (suc n) i t =
      let (calm, calls, skips) = (h i).at t in
      stepped (round i t).0 (round i t).1 calm calls skips (loop_bound n (i + 1) (round i t).1)
    where
      rest : Round A → Io A
      rest r = elim r [ skip ↦ search_loop round last n (i + 1) | answer v ↦ pure v ]

      stepped :
          (r : Outcome (Round A)) (u : ℕ)
          → r ≢ panic
          → u ≤ t + (a + x)
          → (r ≡ ok skip → u ≤ t + a)
          → ((search_loop round last n (i + 1) u).0 ≢ panic)
            × ((search_loop round last n (i + 1) u).1 ≤ u + (n * a + x))
          → ((continue r rest u).0 ≢ panic) × ((continue r rest u).1 ≤ t + (suc n * a + x))
      stepped (ok skip) u np c s ih = (ih.0, omega (arith, ih.1, s refl, suc-mul n a))
      stepped (ok (answer v)) u np c s ih = ((λ e. cc), omega (arith, c, suc-mul n a))
      stepped (err e) u np c s ih = ((λ p. cc), omega (arith, c, suc-mul n a))
      stepped panic u np c s ih = absurd (np refl)

  pub search_loop-Safe : (n i : ℕ) → Safe Spent (n * a + x) (search_loop round last n i)
  search_loop-Safe n i = record {
    at = λ k j t le spent. let (calm, calls) = loop_bound n i t in (calm, omega (arith, calls));
  }

module _ (rem : Remote) where
  string_value-Last : (z tag : ℕ) → Last 3 (string_value rem z tag)
  unfolding string_value
  string_value-Last z tag =
      Last-if 3 _ _ _
        (Last-bind 1 2 _ _ (read_u64-Safe rem _)
          λ s. Last-bind 2 0 _ _ (read_zend_string-Safe rem s) λ text. Last-answer 0 _)
        (Last-answer 3 _)

  referenced_value-Last : (z : ℕ) → Last 5 (referenced_value rem z)
  unfolding referenced_value
  referenced_value-Last z = Last-bind 1 4 _ _ (read_u64-Safe rem _) λ ref_ptr.
      Last-if 4 _ _ _ (Last-answer 4 _) (
        Last-bind 1 3 _ _ (Safe-unwrap_or 1 _ 0 (read_u32-Safe rem _))
          λ inner_type. string_value-Last _ _)

  Last-weaken : {A : Type 0} (a n : ℕ) (m : Io (Round A)) → a ≤ n → Last a m → Last n m
  Last-weaken a n m le h = record {
    at = λ t. let (calm, calls, ends) = h.at t in (calm, omega (arith, calls), ends);
  }

  keyed-SafeRound :
      (want : Text) (z tag : ℕ) (key : Option Text) → SafeRound 0 5 (keyed rem want z tag key)
  unfolding keyed matched_value
  keyed-SafeRound want z tag none = SafeRound-skip 0 5
  keyed-SafeRound want z tag (some key) =
      SafeRound-if 0 5 _ _ _
        (SafeRound-Last 0 5 _ (
          Last-if 5 _ _ _ (referenced_value-Last z)
            (Last-weaken 3 5 _ (omega arith) (string_value-Last z tag))))
        (SafeRound-skip 0 5)

  bucket_round-SafeRound :
      (want : Text) (ar_data i : ℕ) → SafeRound 4 5 (bucket_round rem want ar_data i)
  unfolding bucket_round
  bucket_round-SafeRound want ar_data i =
      SafeRound-bind 1 3 5 _ _ (Safe-unwrap_or 1 _ 0 (read_u32-Safe rem _)) λ type_info.
        SafeRound-if 3 5 _ _ _ (SafeRound-skip 3 5) (
          SafeRound-bind 1 2 5 _ _ (Safe-unwrap_or 1 _ 0 (read_u64-Safe rem _)) λ key_ptr.
            SafeRound-if 2 5 _ _ _ (SafeRound-skip 2 5) (
              SafeRound-bind 2 0 5 _ _ (Safe-attempt 2 _ (read_zend_string-Safe rem _)) λ key.
                keyed-SafeRound want (add64 (add64 ar_data (i * Bucket.size)) Bucket.val)
                  (tag_of type_info) key))

  -- The header of the table, four reads for each bucket that is passed, and five for the one found.
  pub ht_get_string-Safe : (addr : ℕ) (want : Text) → Safe Spent 16391 (ht_get_string rem addr want)
  unfolding ht_get_string
  ht_get_string-Safe addr want =
      Safe-bind Spent-IsMonotone 1 16390 _ _ _ (omega arith) (read_u32-Safe rem _) λ n_used.
        Safe-bind Spent-IsMonotone 1 16389 _ _ _ (omega arith) (read_u64-Safe rem _) λ ar_data.
          Safe-if 16389 _ _ _ (Safe-pure Spent-IsMonotone 16389 none) (
            Safe-weaken Spent-IsMonotone (min n_used 4096 * 4 + 5) 16389 _ (omega arith) (
              search_loop-Safe 4 5 _ none (bucket_round-SafeRound want ar_data) (min n_used 4096)
                0))
