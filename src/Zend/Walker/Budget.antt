-- ===== src/Zend/Walker/Budget.antt =====
-- How many calls the reads of one frame make, that they never panic, and the bound of the cache.
use php_fast_profile.Base.{
  ℕ, zero, suc, ◌+◌, ◌≤◌, ◌<◌, List, [], Option, none, some, length, ◌≡◌, ◌≢◌, arith, nat_eq,
}
use php_fast_profile.Base.Act.{panic}
use php_fast_profile.Base.Map.{lookup, length-insert}
use php_fast_profile.Base.Safe.{
  Safe, IsMonotone, Safe-lift, Safe-pure, Safe-if, Safe-unwrap_or, Safe-bind, Safe-bind_known,
}
use php_fast_profile.Base.Text.{Text}
use php_fast_profile.Remote
use php_fast_profile.Remote.{Remote, Io}
use php_fast_profile.Remote.Laws.{length-read}
use php_fast_profile.Offsets.{VersionLayout}
use php_fast_profile.Offsets.Laws.{IsInBuffer}
use php_fast_profile.Zend.Reads.{slice, read_u64, read_u32, byte_at, read_zend_string}
use php_fast_profile.Zend.Walker.{
  Walker, io, remember, cached, cache_limit, read_zstring_cached, optional_string, read_function,
  read_class, read_opline, read_user, read_position, decode_function, read_function_at, read_frame,
}

abbrev pub Spent : ℕ → ℕ → Type 0
Spent k t = t ≤ k

-- The calls so far, and a cache within its limit.
pub record IsBounded (k : ℕ) (w : Walker) : Type 0 where
  pub calls : w.calls ≤ k
  pub cache : length w.string_cache ≤ cache_limit

pub Spent-IsMonotone : IsMonotone Spent
Spent-IsMonotone = record { up = λ k j s le h. omega arith }

pub IsBounded-IsMonotone : IsMonotone IsBounded
IsBounded-IsMonotone = record { up = λ k j s le h. record { calls = omega arith; cache = h.cache } }

module _ (rem : Remote) where
  pub read-Safe : (addr n : ℕ) → Safe Spent 1 (Remote.read rem addr n)
  unfolding Remote.read
  read-Safe addr zero = record { at = λ k j s le h. ground arith }
  read-Safe addr (suc n) = record { at = λ k j s le h. ground arith }

  pub read_u64-Safe : (addr : ℕ) → Safe Spent 1 (Remote.read_u64 rem addr)
  unfolding Remote.read_u64
  read_u64-Safe addr =
      Safe-bind Spent-IsMonotone 1 0 1 _ _ (omega arith) (read-Safe addr 8)
        λ buf. Safe-pure Spent-IsMonotone 0 _

  pub read_u32-Safe : (addr : ℕ) → Safe Spent 1 (Remote.read_u32 rem addr)
  unfolding Remote.read_u32
  read_u32-Safe addr =
      Safe-bind Spent-IsMonotone 1 0 1 _ _ (omega arith) (read-Safe addr 4)
        λ buf. Safe-pure Spent-IsMonotone 0 _

  pub read_zend_string-Safe : (addr : ℕ) → Safe Spent 2 (read_zend_string rem addr)
  unfolding read_zend_string
  read_zend_string-Safe addr =
      Safe-bind Spent-IsMonotone 1 1 2 _ _ (omega arith) (read_u64-Safe _) λ len.
        Safe-if 1 _ _ _ (Safe-pure Spent-IsMonotone 1 []) (
          Safe-bind Spent-IsMonotone 1 0 1 _ _ (omega arith) (read-Safe _ _)
            λ bytes. Safe-pure Spent-IsMonotone 0 _)

pub io-Safe : {A : Type 0} (n : ℕ) (m : Io A) → Safe Spent n m → Safe IsBounded n (io m)
unfolding io
io-Safe n m sm = record {
  at = λ k j w le inv.
      let (h, spent) = sm.at k j w.calls le inv.calls in
      (h, record { calls = spent; cache = inv.cache });
}

-- A field that lies in its buffer is read.
slice-ok : (buf : List ℕ) (off n : ℕ) → off + n ≤ length buf → slice buf off n ≢ panic
unfolding slice
slice-ok buf off n h = ground arith

pub read_u64-ok : (buf : List ℕ) (off : ℕ) → off + 8 ≤ length buf → read_u64 buf off ≢ panic
unfolding read_u64
read_u64-ok buf off h = ground arith

pub read_u32-ok : (buf : List ℕ) (off : ℕ) → off + 4 ≤ length buf → read_u32 buf off ≢ panic
unfolding read_u32
read_u32-ok buf off h = ground arith

pub byte_at_zero : (buf : List ℕ) → 0 < length buf → byte_at buf 0 ≢ panic
unfolding byte_at
byte_at_zero [] h = absurd (omega arith)
byte_at_zero (List.◌∷◌ b bs) h = λ e. cc

remember-Safe : (addr : ℕ) (s : Text) → Safe IsBounded 0 (remember addr s)
unfolding remember
remember-Safe addr s = record {
  at = λ k j w le inv. ground (arith, inv.calls, inv.cache, length-insert addr s w.string_cache);
}

module _ (rem : Remote) where
  cached-Safe : (addr : ℕ) (o : Option Text) → Safe IsBounded 2 (cached rem addr o)
  unfolding cached
  cached-Safe addr (some s) = Safe-pure IsBounded-IsMonotone 2 s
  cached-Safe addr none =
      Safe-bind IsBounded-IsMonotone 2 0 2 _ _ (omega arith)
        (io-Safe 2 _ (read_zend_string-Safe rem addr)) λ s. remember-Safe addr s

  pub read_zstring_cached-Safe : (addr : ℕ) → Safe IsBounded 2 (read_zstring_cached rem addr)
  unfolding read_zstring_cached
  read_zstring_cached-Safe addr = record {
    at = λ k j w le inv. (cached-Safe addr (lookup addr w.string_cache)).at k j w le inv;
  }

  optional_string-Safe : (ptr : ℕ) → Safe IsBounded 2 (optional_string rem ptr)
  unfolding optional_string
  optional_string-Safe ptr = Safe-if 2 _ _ _ (Safe-pure IsBounded-IsMonotone 2 none) (
      Safe-bind IsBounded-IsMonotone 2 0 2 _ _ (omega arith) (read_zstring_cached-Safe ptr)
        λ s. Safe-pure IsBounded-IsMonotone 0 _)

  read_function-Safe : (ptr : ℕ) → Safe IsBounded 2 (read_function rem ptr)
  unfolding read_function
  read_function-Safe ptr =
      Safe-if 2 _ _ _ (Safe-pure IsBounded-IsMonotone 2 _) (read_zstring_cached-Safe ptr)

  read_class-Safe : (ptr : ℕ) → Safe IsBounded 3 (read_class rem ptr)
  unfolding read_class
  read_class-Safe ptr = Safe-if 3 _ _ _ (Safe-pure IsBounded-IsMonotone 3 none) (
      Safe-bind IsBounded-IsMonotone 1 2 3 _ _ (omega arith) (io-Safe 1 _ (read_u64-Safe rem _))
        λ p. optional_string-Safe p)

  read_opline-Safe : (ptr : ℕ) → Safe IsBounded 1 (read_opline rem ptr)
  unfolding read_opline
  read_opline-Safe ptr =
      Safe-if 1 _ _ _ (Safe-pure IsBounded-IsMonotone 1 0)
        (io-Safe 1 _ (Safe-unwrap_or 1 _ 0 (read_u32-Safe rem _)))

module _ (rem : Remote) (layout : VersionLayout) (fits : IsInBuffer layout) where
  read_user-Safe :
      (buf : List ℕ) (opline : ℕ)
      → length buf ≡ 192
      → Safe IsBounded 3 (read_user rem layout buf opline)
  unfolding read_user
  read_user-Safe buf opline e =
      Safe-bind IsBounded-IsMonotone 0 3 3 _ _ (omega arith)
        (Safe-lift IsBounded-IsMonotone 0 _ (read_u64-ok buf _ (omega (arith, fits.filename))))
        λ file_ptr.
          Safe-bind IsBounded-IsMonotone 2 1 3 _ _ (omega arith) (optional_string-Safe rem file_ptr)
            λ file.
              Safe-bind IsBounded-IsMonotone 1 0 1 _ _ (omega arith) (read_opline-Safe rem opline)
                λ line.
                  Safe-if 0 _ _ _
                    (Safe-bind IsBounded-IsMonotone 0 0 0 _ _ (omega arith)
                      (Safe-lift IsBounded-IsMonotone 0 _
                        (read_u32-ok buf _ (omega (arith, fits.line_start))))
                      λ start. Safe-pure IsBounded-IsMonotone 0 _)
                    (Safe-pure IsBounded-IsMonotone 0 _)

  read_position-Safe :
      (buf : List ℕ) (ftype opline : ℕ)
      → length buf ≡ 192
      → Safe IsBounded 3 (read_position rem layout buf ftype opline)
  unfolding read_position
  read_position-Safe buf ftype opline e =
      Safe-if 3 _ _ _ (read_user-Safe buf opline e) (Safe-pure IsBounded-IsMonotone 3 _)

  decode_function-Safe :
      (buf : List ℕ) (opline : ℕ)
      → length buf ≡ 192
      → Safe IsBounded 8 (decode_function rem layout buf opline)
  unfolding decode_function
  decode_function-Safe buf opline e =
      Safe-bind IsBounded-IsMonotone 0 8 8 _ _ (omega arith)
        (Safe-lift IsBounded-IsMonotone 0 _ (byte_at_zero buf (omega arith)))
        λ ftype.
          Safe-bind IsBounded-IsMonotone 0 8 8 _ _ (omega arith)
            (Safe-lift IsBounded-IsMonotone 0 _ (read_u64-ok buf _ (omega arith)))
            λ name_ptr.
              Safe-bind IsBounded-IsMonotone 0 8 8 _ _ (omega arith)
                (Safe-lift IsBounded-IsMonotone 0 _ (read_u64-ok buf _ (omega arith)))
                λ scope_ptr.
                  Safe-bind IsBounded-IsMonotone 2 6 8 _ _ (omega arith)
                    (read_function-Safe rem name_ptr)
                    λ function.
                      Safe-bind IsBounded-IsMonotone 3 3 6 _ _ (omega arith)
                        (read_class-Safe rem scope_ptr)
                        λ class.
                          Safe-bind IsBounded-IsMonotone 3 0 3 _ _ (omega arith)
                            (read_position-Safe buf ftype opline e)
                            λ position. Safe-pure IsBounded-IsMonotone 0 _

  read_function_at-Safe :
      (func_ptr opline : ℕ) → Safe IsBounded 9 (read_function_at rem layout func_ptr opline)
  unfolding read_function_at
  read_function_at-Safe func_ptr opline = Safe-if 9 _ _ _ (Safe-pure IsBounded-IsMonotone 9 _) (
      Safe-bind_known IsBounded-IsMonotone 1 8 9 _ _ (omega arith)
        (io-Safe 1 _ (read-Safe rem func_ptr 192))
        λ buf w got.
          decode_function-Safe buf opline (unfold io in length-read rem func_ptr 192 w.calls got))

  pub read_frame-Safe : (ex_addr : ℕ) → Safe IsBounded 10 (read_frame rem layout ex_addr)
  unfolding read_frame
  read_frame-Safe ex_addr =
      Safe-bind_known IsBounded-IsMonotone 1 9 10 _ _ (omega arith)
        (io-Safe 1 _ (read-Safe rem ex_addr 64))
        λ buf w got.
          let e : length buf ≡ 64 = unfold io in length-read rem ex_addr 64 w.calls got in
          Safe-bind IsBounded-IsMonotone 0 9 9 _ _ (omega arith)
            (Safe-lift IsBounded-IsMonotone 0 _ (read_u64-ok buf _ (omega arith)))
            λ opline.
              Safe-bind IsBounded-IsMonotone 0 9 9 _ _ (omega arith)
                (Safe-lift IsBounded-IsMonotone 0 _ (read_u64-ok buf _ (omega arith)))
                λ func_ptr.
                  Safe-bind IsBounded-IsMonotone 0 9 9 _ _ (omega arith)
                    (Safe-lift IsBounded-IsMonotone 0 _ (read_u64-ok buf _ (omega arith)))
                    λ prev.
                      Safe-bind IsBounded-IsMonotone 9 0 9 _ _ (omega arith)
                        (read_function_at-Safe func_ptr opline)
                        λ frame. Safe-pure IsBounded-IsMonotone 0 _
