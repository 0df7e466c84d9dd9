-- ===== src/Zend/Walker/Regions.antt =====
-- Reads of fields, of stored regions and of strings, from memory that holds them.
use php_fast_profile.Base.{
  ℕ, zero, suc, ◌^◌, ◌<◌, List, [], ◌∷◌, ◌++◌, length, take, drop, length-append, ◌≡◌, refl, ap,
  arith, ◌==◌, if◌then◌else◌, nat_eq,
}
use php_fast_profile.Base.Act.{ok, pure, ◌>>=◌}
use php_fast_profile.Base.Bytes.{
  to_le_bytes, length-to_le_bytes, from_le_bytes-to_le_bytes_4, from_le_bytes-to_le_bytes_8,
}
use php_fast_profile.Base.Gives.{Gives, Gives-pure, Gives-false, Gives-bind}
use php_fast_profile.Base.Text.{Text}
use php_fast_profile.Base.Utf8.{from_utf8_lossy}
use php_fast_profile.Remote
use php_fast_profile.Remote.{Remote, Io, checked}
use php_fast_profile.Zend.Reads.{slice, read_u64, read_u32, byte_at, read_zend_string}
use php_fast_profile.Zend.Walker.Stored.{Stores, FieldAt, HoldsString}

-- The fields of a buffer.
take-append_length {ℓ} :
    {A : Type ℓ} (n : ℕ) (xs ys : List A) → length xs ≡ n → take n (xs ++ ys) ≡ xs
take-append_length zero [] ys e = refl
take-append_length zero (x ∷ xs) ys e = absurd (omega arith)
take-append_length (suc n) [] ys e = absurd (omega arith)
take-append_length (suc n) (x ∷ xs) ys e =
    ap (λ t. x ∷ t) (take-append_length n xs ys (omega arith))

drop-append_length {ℓ} :
    {A : Type ℓ} (n : ℕ) (xs ys : List A) → length xs ≡ n → drop n (xs ++ ys) ≡ ys
drop-append_length zero [] ys e = refl
drop-append_length zero (x ∷ xs) ys e = absurd (omega arith)
drop-append_length (suc n) [] ys e = absurd (omega arith)
drop-append_length (suc n) (x ∷ xs) ys e = drop-append_length n xs ys (omega arith)

slice-append :
    (off n : ℕ) (front mid back : List ℕ)
    → length front ≡ off
    → length mid ≡ n
    → slice (front ++ (mid ++ back)) off n ≡ ok mid
unfolding slice
slice-append off n front mid back ef em = ground (
  arith,
  length-append front (mid ++ back),
  length-append mid back,
  drop-append_length off front (mid ++ back) ef,
  take-append_length n mid back em,
)

slice-FieldAt :
    {buf : List ℕ} {off n v : ℕ} → FieldAt buf off n v → slice buf off n ≡ ok (to_le_bytes n v)
slice-FieldAt {off = off} {n = n} {v = v} h =
    rw h.layout
      (slice-append off n h.front (to_le_bytes n v) h.back h.offset (length-to_le_bytes n v))

pub read_u64-FieldAt : {buf : List ℕ} {off v : ℕ} → FieldAt buf off 8 v → read_u64 buf off ≡ ok v
unfolding read_u64
read_u64-FieldAt {buf} {off} {v} h = cc (slice-FieldAt h, from_le_bytes-to_le_bytes_8 v h.fits)

pub read_u32-FieldAt : {buf : List ℕ} {off v : ℕ} → FieldAt buf off 4 v → read_u32 buf off ≡ ok v
unfolding read_u32
read_u32-FieldAt {buf} {off} {v} h = cc (slice-FieldAt h, from_le_bytes-to_le_bytes_4 v h.fits)

pub byte_at-FieldAt : {buf : List ℕ} {v : ℕ} → FieldAt buf 0 1 v → byte_at buf 0 ≡ ok v
unfolding byte_at
byte_at-FieldAt {buf} {v} h = byte_front h.front h.back h.offset h.layout
  where
    byte_front :
        (front back : List ℕ)
        → length front ≡ 0
        → buf ≡ front ++ (to_le_bytes 1 v ++ back)
        → byte_at buf 0 ≡ ok v
    byte_front [] back e layout = unfold to_le_bytes in rw layout (ap ok (omega (arith, h.fits)))
    byte_front (x ∷ front) back e layout = absurd (omega arith)

-- A read of a region that is stored.
pub read-Stores :
    (rem : Remote) (a n t : ℕ) {bytes : List ℕ}
    → length bytes ≡ n
    → 0 < n
    → Stores rem a bytes
    → (Remote.read rem a n t).0 ≡ ok bytes
unfolding Remote.read
read-Stores rem a zero t e pos h = absurd (omega arith)
read-Stores rem a (suc n) t {bytes} e pos h = ground (arith, h t, ap (rem.readv t a) e)

pub read_u64-Stores :
    (rem : Remote) (a t : ℕ) {v : ℕ}
    → v < 2 ^ 64
    → Stores rem a (to_le_bytes 8 v)
    → (Remote.read_u64 rem a t).0 ≡ ok v
unfolding Remote.read_u64
read_u64-Stores rem a t {v} lt h = ground (
  arith,
  read-Stores rem a 8 t (length-to_le_bytes 8 v) (omega arith) h,
  from_le_bytes-to_le_bytes_8 v lt,
)

pub read_u32-Stores :
    (rem : Remote) (a t : ℕ) {v : ℕ}
    → v < 2 ^ 32
    → Stores rem a (to_le_bytes 4 v)
    → (Remote.read_u32 rem a t).0 ≡ ok v
unfolding Remote.read_u32
read_u32-Stores rem a t {v} lt h = ground (
  arith,
  read-Stores rem a 4 t (length-to_le_bytes 4 v) (omega arith) h,
  from_le_bytes-to_le_bytes_4 v lt,
)

-- Calls leave a trace only in their count.
abbrev pub Always : ℕ → Type 0
Always t = Unit

pub always : {A : Type 0} (m : Io A) (a : A) → ((t : ℕ) → (m t).0 ≡ ok a) → Gives Always m a
always m a h = record { at = λ t _. (h t, tt) }

module _ (rem : Remote) where
  string_body :
      (a n : ℕ) {bytes : List ℕ}
      → length bytes ≡ n
      → (0 < length bytes → Stores rem a bytes)
      → Gives Always
          (if n == 0 then pure [] else (do got ← Remote.read rem a n; pure (from_utf8_lossy got)))
          (from_utf8_lossy bytes)
  string_body a zero {bytes} e h = empty_body bytes e
    where
      empty_body :
          (bytes : List ℕ) → length bytes ≡ 0 → Gives Always (pure []) (from_utf8_lossy bytes)
      empty_body [] e = unfold from_utf8_lossy in Gives-pure []
      empty_body (b ∷ bytes) e = absurd (omega arith)
  string_body a (suc n) {bytes} e h = Gives-false (suc n == 0) (pure []) _ (ground arith) (
      Gives-bind (Remote.read rem a (suc n)) _ bytes _
        (always _ bytes (λ t. read-Stores rem a (suc n) t e (omega arith) (h (omega arith))))
        (Gives-pure _))

  pub read_zend_string-HoldsString :
      (a : ℕ) {s : Text} → HoldsString rem a s → Gives Always (read_zend_string rem a) s
  unfolding read_zend_string
  read_zend_string-HoldsString a {s} h = rw h.text (
      Gives-bind (Remote.read_u64 rem _) _ h.stored _
        (always _ _ (λ t. read_u64-Stores rem _ t h.fits h.header)) (string_body _ _ h.cut h.body))
