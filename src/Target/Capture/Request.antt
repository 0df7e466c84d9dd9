-- ===== src/Target/Capture/Request.antt =====
-- `request_var` ends within a number of calls, and does not panic.
use php_fast_profile.Base.{
  ℕ, ◌+◌, ◌*◌, ◌≤◌, min, length, Option, none, some, ◌≢◌, arith, ◌==◌, list_eq, nat_eq,
}
use php_fast_profile.Base.Act.{panic}
use php_fast_profile.Base.Bytes.{add64}
use php_fast_profile.Base.Safe.{
  Safe, Safe-pure, Safe-if, Safe-attempt, Safe-unwrap_or, Safe-bind, Safe-weaken,
}
use php_fast_profile.Base.Text.{Text}
use php_fast_profile.Offsets.Bucket
use php_fast_profile.Offsets.Zval
use php_fast_profile.Remote.{Remote}
use php_fast_profile.Zend.Reads.{tag_of}
use php_fast_profile.Zend.Reads.Calls.{
  SafeRound, Last, Last-answer, Last-if, Last-bind, SafeRound-Last, SafeRound-skip, SafeRound-if,
  SafeRound-bind, search_loop-Safe, ht_get_string-Safe,
}
use php_fast_profile.Zend.Walker.{Walker, cache_limit}
use php_fast_profile.Zend.Walker.Budget.{
  Spent, Spent-IsMonotone, IsBounded, IsBounded-IsMonotone, io-Safe, read_u64-Safe, read_u32-Safe,
  read_zend_string-Safe,
}
use php_fast_profile.Target.Capture.{
  Target, server_array, lookup_in, server_bucket, symbol_round, request_var_impl, request_var,
}

module _ (rem : Remote) (key : Text) where
  server_array-Safe : (b tag : ℕ) → Safe Spent 2 (server_array rem b tag)
  unfolding server_array
  server_array-Safe b tag =
      Safe-if {A = Option ℕ} 2 (tag == Zval.is_reference) _ _
        (Safe-bind Spent-IsMonotone 1 1 2 _ _ (omega arith) (read_u64-Safe rem _) λ r.
          Safe-bind Spent-IsMonotone 1 0 1 _ _ (omega arith) (read_u64-Safe rem _)
            λ a. Safe-pure Spent-IsMonotone 0 (some a))
        (Safe-if {A = Option ℕ} 2 (tag == Zval.is_array) _ _
          (Safe-bind Spent-IsMonotone 1 1 2 _ _ (omega arith) (read_u64-Safe rem _)
            λ a. Safe-pure Spent-IsMonotone 1 (some a))
          (Safe-pure Spent-IsMonotone 2 none))

  lookup_in-Last : (array : Option ℕ) → Last 16391 (lookup_in rem key array)
  unfolding lookup_in
  lookup_in-Last none = Last-answer 16391 none
  lookup_in-Last (some array_ptr) =
      Last-if 16391 _ _ _ (Last-answer 16391 none)
        (Last-bind 16391 0 _ _ (ht_get_string-Safe rem array_ptr key) λ found. Last-answer 0 found)

  server_bucket-SafeRound :
      (b : ℕ) (k : Option Text) → SafeRound 0 16394 (server_bucket rem key b k)
  unfolding server_bucket
  server_bucket-SafeRound b none = SafeRound-skip 0 16394
  server_bucket-SafeRound b (some k) =
      SafeRound-if 0 16394 _ _ _
        (SafeRound-Last 0 16394 _ (
          Last-bind 1 16393 _ _ (read_u32-Safe rem _) λ type_info.
            Last-bind 2 16391 _ _ (server_array-Safe b (tag_of type_info))
              λ array_ptr. lookup_in-Last array_ptr))
        (SafeRound-skip 0 16394)

  symbol_round-SafeRound : (ar_data i : ℕ) → SafeRound 3 16394 (symbol_round rem key ar_data i)
  unfolding symbol_round
  symbol_round-SafeRound ar_data i =
      SafeRound-bind 1 2 16394 _ _ (Safe-unwrap_or 1 _ 0 (read_u64-Safe rem _)) λ key_ptr.
        SafeRound-if 2 16394 _ _ _ (SafeRound-skip 2 16394) (
          SafeRound-bind 2 0 16394 _ _ (Safe-attempt 2 _ (read_zend_string-Safe rem _))
            λ k. server_bucket-SafeRound (add64 ar_data (i * Bucket.size)) k)

-- The header of the symbol table, three reads for each symbol that is passed, and those in `_SERVER`.
abbrev pub request_calls : ℕ
request_calls = 28684

request_var_impl-Safe :
    (t : Target) (key : Text) → Safe Spent request_calls (request_var_impl t key)
unfolding request_var_impl
request_var_impl-Safe t key =
    Safe-bind Spent-IsMonotone 1 28683 _ _ _ (omega arith) (read_u32-Safe t.remote _) λ n_used.
      Safe-bind Spent-IsMonotone 1 28682 _ _ _ (omega arith) (read_u64-Safe t.remote _) λ ar_data.
        Safe-if 28682 _ _ _ (Safe-pure Spent-IsMonotone 28682 none) (
          Safe-weaken Spent-IsMonotone (min n_used 4096 * 3 + 16394) 28682 _ (omega arith) (
            search_loop-Safe 3 16394 _ none (symbol_round-SafeRound t.remote key ar_data)
              (min n_used 4096) 0))

pub request_var-Safe : (t : Target) (key : Text) → Safe IsBounded request_calls (request_var t key)
unfolding request_var
request_var-Safe t key =
    Safe-bind IsBounded-IsMonotone request_calls 0 request_calls _ _ (omega arith)
      (io-Safe request_calls _ (Safe-attempt request_calls _ (request_var_impl-Safe t key)))
      λ found. Safe-pure IsBounded-IsMonotone 0 _

-- Whatever the target's memory answers, a lookup of a request's variable returns, without a panic,
-- by at most 28684 calls: three for each of at most 4096 symbols, four for each of at most 4096 keys
-- of `_SERVER`, and twelve more.
pub request_var_bounds :
    (t : Target) (key : Text) (w : Walker)
    → length w.string_cache ≤ cache_limit
    → ((request_var t key w).0 ≢ panic)
      × ((request_var t key w).1.calls ≤ w.calls + request_calls)
      × (length (request_var t key w).1.string_cache ≤ cache_limit)
request_var_bounds t key w small =
    let (np, inv) =
      (request_var-Safe t key).at w.calls (w.calls + request_calls) w (omega arith)
        (record { calls = omega arith; cache = small }) in
    (np, inv.calls, inv.cache)
