-- ===== src/Target/Capture.antt =====
-- src/target.rs, `Target::capture_stack` and `Target::request_var`.
pub mod Bounds
pub mod Faithful
pub mod Request
use php_fast_profile.Base.{
  ℕ, zero, suc, ◌+◌, ◌*◌, min, List, [], ◌∷◌, Option, none, some, ◌==◌, if◌then◌else◌, eqb, list_eq,
  nat_eq,
}
use php_fast_profile.Base.Act.{pure, attempt, unwrap_or, ◌>>=◌}
use php_fast_profile.Base.Bytes.{add64}
use php_fast_profile.Base.Text.{Text, codes}
use php_fast_profile.Remote
use php_fast_profile.Remote.{Remote, Io}
use php_fast_profile.Offsets.{VersionLayout}
use php_fast_profile.Offsets.Ht
use php_fast_profile.Symbols.{Symbols}
use php_fast_profile.Offsets.Bucket
use php_fast_profile.Offsets.Zval
use php_fast_profile.Zend.Frame.{Frame}
use php_fast_profile.Zend.Reads.{
  current_execute_data, read_zend_string, Round, skip, answer, search_loop, tag_of, ht_get_string,
}
use php_fast_profile.Zend.Walker.{Walk, io, read_frame}

-- The walker of a `Target` is the state.
pub record Target : Type 0 where
  pub pid : ℕ
  pub remote : Remote
  pub symbols : Symbols
  pub php_version : Text
  pub layout : VersionLayout
  pub exe : Text

-- What follows a frame that was read; a frame that cannot be read ends the loop.
unfoldable pub extend : (ℕ → Walk (List Frame)) → Option (Frame × ℕ) → Walk (List Frame)
extend rest none = pure []
extend rest (some (frame, prev)) = do frames ← rest prev; pure (frame ∷ frames)

-- The loop of `capture_stack`, over the depth that is left.
unfoldable pub capture_loop : Target → ℕ → ℕ → Walk (List Frame)
unfolding extend
capture_loop t zero ex = pure []
capture_loop t (suc depth) ex =
    if ex == 0
    then pure []
    else do read ← attempt (read_frame t.remote t.layout ex); extend (capture_loop t depth) read

unfoldable pub capture_stack : Target → ℕ → Walk (List Frame)
capture_stack t max_depth = do
  ex ← io (current_execute_data t.remote t.symbols.executor_globals t.layout)
  capture_loop t max_depth ex

-- The array that the `_SERVER` bucket at `b` leads to, 0 for none.
server_array : Remote → ℕ → ℕ → Io (Option ℕ)
server_array rem b tag =
    if tag == Zval.is_reference
    then (do
      r ← Remote.read_u64 rem (add64 b (Bucket.val + Zval.value))
      a ← Remote.read_u64 rem (add64 (add64 r 16) Zval.value)
      pure (some a))
    else if tag == Zval.is_array
    then (do a ← Remote.read_u64 rem (add64 b (Bucket.val + Zval.value)); pure (some a))
    else pure none

lookup_in : Remote → Text → Option ℕ → Io (Round (Option Text))
lookup_in rem key none = pure (answer none)
lookup_in rem key (some array_ptr) =
    if array_ptr == 0
    then pure (answer none)
    else (do found ← ht_get_string rem array_ptr key; pure (answer found))

server_bucket : Remote → Text → ℕ → Option Text → Io (Round (Option Text))
unfolding server_array lookup_in
server_bucket rem key b none = pure skip
server_bucket rem key b (some k) =
    if eqb k (codes "_SERVER")
    then (do
      type_info ← Remote.read_u32 rem (add64 b (Bucket.val + Zval.type_info))
      array_ptr ← server_array rem b (tag_of type_info)
      lookup_in rem key array_ptr)
    else pure skip

-- One round of the search of the global symbol table.
symbol_round : Remote → Text → ℕ → ℕ → Io (Round (Option Text))
unfolding server_bucket
symbol_round rem key ar_data i = do
  let b = add64 ar_data (i * Bucket.size)
  key_ptr ← unwrap_or (Remote.read_u64 rem (add64 b Bucket.key)) 0
  if key_ptr == 0
      then pure skip
      else do k ← attempt (read_zend_string rem key_ptr); server_bucket rem key b k

unfoldable pub request_var_impl : Target → Text → Io (Option Text)
unfolding symbol_round
request_var_impl t key = do
  let symbol_table = add64 t.symbols.executor_globals t.layout.eg_symbol_table
  n_used ← Remote.read_u32 t.remote (add64 symbol_table Ht.n_num_used)
  ar_data ← Remote.read_u64 t.remote (add64 symbol_table Ht.ar_data)
  if ar_data == 0
      then pure none
      else search_loop (symbol_round t.remote key ar_data) none (min n_used 4096) 0

flatten_option : Option (Option Text) → Option Text
flatten_option none = none
flatten_option (some v) = v

-- `request_var`: an error is no value.
unfoldable pub request_var : Target → Text → Walk (Option Text)
unfolding flatten_option
request_var t key = do found ← io (attempt (request_var_impl t key)); pure (flatten_option found)
