-- ===== src/Zend/Reads.antt =====
-- src/zend.rs, the reads that keep no state: fields of a buffer, strings, hash tables.
pub mod Calls
use php_fast_profile.Base.{
  ℕ, zero, suc, ◌+◌, ◌*◌, ◌%◌, min, List, [], Option, none, some, ◌||◌, length, take, drop,
  get_elem?, ◌==◌, leb, if◌then◌else◌, eqb, list_eq, nat_eq,
}
use php_fast_profile.Base.Act.{Outcome, ok, err, panic, pure, attempt, unwrap_or, ◌>>=◌}
use php_fast_profile.Base.Bytes.{from_le_bytes, add64}
use php_fast_profile.Base.Utf8.{from_utf8_lossy}
use php_fast_profile.Base.Text.{Text}
use php_fast_profile.Remote
use php_fast_profile.Remote.{Remote, Io}
use php_fast_profile.Offsets.{VersionLayout}
use php_fast_profile.Offsets.Zstr
use php_fast_profile.Offsets.Ht
use php_fast_profile.Offsets.Bucket
use php_fast_profile.Offsets.Zval

abbrev pub max_str_len : ℕ
max_str_len = 4096

-- `buf[off..off + n]`, which panics if it does not lie in the buffer.
unfoldable pub slice : List ℕ → ℕ → ℕ → Outcome (List ℕ)
slice buf off n = if leb (off + n) (length buf) then ok (take n (drop off buf)) else panic

-- `buf[i]`
unfoldable pub byte_at : List ℕ → ℕ → Outcome ℕ
byte_at buf i = elim (get_elem? buf i) [ none ↦ panic | some b ↦ ok b ]

abbrev word : Outcome (List ℕ) → Outcome ℕ
word (ok bytes) = ok (from_le_bytes bytes)
word (err e) = err e
word panic = panic

unfoldable pub read_u64 : List ℕ → ℕ → Outcome ℕ
unfolding slice
read_u64 buf off = word (slice buf off 8)

unfoldable pub read_u32 : List ℕ → ℕ → Outcome ℕ
unfolding slice
read_u32 buf off = word (slice buf off 4)

unfoldable pub current_execute_data : Remote → ℕ → VersionLayout → Io ℕ
current_execute_data rem eg_addr layout =
    Remote.read_u64 rem (add64 eg_addr layout.eg_current_execute_data)

unfoldable pub read_zend_string : Remote → ℕ → Io Text
read_zend_string rem addr = do
  stored ← Remote.read_u64 rem (add64 addr Zstr.len)
  let len = min stored max_str_len
  if len == 0
      then pure []
      else do bytes ← Remote.read rem (add64 addr Zstr.val) len; pure (from_utf8_lossy bytes)

-- What a round of a search loop decides: `continue`, or `return`.
pub data Round {ℓ} (A : Type ℓ) : Type ℓ where
  skip : Round A
  answer : A → Round A

-- `for i in i..i + n { .. }`, and the value after the loop.
unfoldable pub search_loop {ℓ} : {A : Type ℓ} → (ℕ → Io (Round A)) → A → ℕ → ℕ → Io A
search_loop round last zero i = pure last
search_loop round last (suc n) i = do
  r ← round i
  elim r [ skip ↦ search_loop round last n (i + 1) | answer a ↦ pure a ]

abbrev pub tag_of : ℕ → ℕ
tag_of type_info = type_info % 256

-- The string of a zval at `z` whose tag is known.
string_value : Remote → ℕ → ℕ → Io (Round (Option Text))
string_value rem z tag =
    if tag == Zval.is_string
    then (do
      s ← Remote.read_u64 rem (add64 z Zval.value)
      text ← read_zend_string rem s
      pure (answer (some text)))
    else pure (answer none)

-- The same behind a reference: a `zend_reference` holds its zval at offset 16.
referenced_value : Remote → ℕ → Io (Round (Option Text))
unfolding string_value
referenced_value rem z = do
  ref_ptr ← Remote.read_u64 rem (add64 z Zval.value)
  if ref_ptr == 0 then pure (answer none) else do
    inner_type ← unwrap_or (Remote.read_u32 rem (add64 (add64 ref_ptr 16) Zval.type_info)) 0
    string_value rem (add64 ref_ptr 16) (tag_of inner_type)

-- A bucket whose key is the wanted one.
matched_value : Remote → ℕ → ℕ → Io (Round (Option Text))
unfolding string_value referenced_value
matched_value rem z tag =
    if tag == Zval.is_reference then referenced_value rem z else string_value rem z tag

keyed : Remote → Text → ℕ → ℕ → Option Text → Io (Round (Option Text))
unfolding matched_value
keyed rem want z tag none = pure skip
keyed rem want z tag (some key) = if eqb key want then matched_value rem z tag else pure skip

-- One round of `ht_get_string`.
bucket_round : Remote → Text → ℕ → ℕ → Io (Round (Option Text))
unfolding keyed
bucket_round rem want ar_data i = do
  let b = add64 ar_data (i * Bucket.size)
  type_info ← unwrap_or (Remote.read_u32 rem (add64 b (Bucket.val + Zval.type_info))) 0
  if tag_of type_info == Zval.is_undef then pure skip else do
    key_ptr ← unwrap_or (Remote.read_u64 rem (add64 b Bucket.key)) 0
    if key_ptr == 0 then pure skip else do
      key ← attempt (read_zend_string rem key_ptr)
      keyed rem want (add64 b Bucket.val) (tag_of type_info) key

unfoldable pub ht_get_string : Remote → ℕ → Text → Io (Option Text)
unfolding bucket_round
ht_get_string rem ht_addr want = do
  n_used ← Remote.read_u32 rem (add64 ht_addr Ht.n_num_used)
  ar_data ← Remote.read_u64 rem (add64 ht_addr Ht.ar_data)
  if ar_data == 0 || n_used == 0
      then pure none
      else search_loop (bucket_round rem want ar_data) none (min n_used 4096) 0
