-- ===== src/Zend/Walker/Stored.antt =====
-- What it means that the target's memory holds a string, a function and a frame of the Zend VM,
-- told from the layout of the structures and not from the reads.
use php_fast_profile.Base.{ℕ, ◌^◌, ◌<◌, min, List, ◌++◌, Option, none, some, length, ◌≡◌, ◌≢◌, ◌⊎◌}
use php_fast_profile.Base.Bytes.{to_le_bytes, add64}
use php_fast_profile.Base.Text.{Text}
use php_fast_profile.Base.Utf8.{from_utf8_lossy}
use php_fast_profile.Remote.{Remote}
use php_fast_profile.Offsets.{VersionLayout}
use php_fast_profile.Offsets.Ex
use php_fast_profile.Offsets.Func
use php_fast_profile.Offsets.Op
use php_fast_profile.Offsets.Ce
use php_fast_profile.Offsets.Zstr
use php_fast_profile.Zend.Frame.{Frame}
use php_fast_profile.Zend.Walker.{intern_main, intern_internal, unknown_frame}

-- At every time, a read of the whole region gives these bytes.
abbrev pub Stores : Remote → ℕ → List ℕ → Type 0
Stores rem a bytes = (t : ℕ) → rem.readv t a (length bytes) ≡ some bytes

-- A buffer holds a word of `n` bytes at an offset.
pub record FieldAt (buf : List ℕ) (off n v : ℕ) : Type 0 where
  pub front : List ℕ
  pub back : List ℕ
  pub layout : buf ≡ front ++ (to_le_bytes n v ++ back)
  pub offset : length front ≡ off
  pub fits : v < 256 ^ n

-- A `zend_string`; a long one is cut to its first 4096 bytes.
pub record HoldsString (rem : Remote) (a : ℕ) (s : Text) : Type 0 where
  pub stored : ℕ
  pub bytes : List ℕ
  pub fits : stored < 2 ^ 64
  pub header : Stores rem (add64 a Zstr.len) (to_le_bytes 8 stored)
  pub cut : length bytes ≡ min stored 4096
  pub body : 0 < length bytes → Stores rem (add64 a Zstr.val) bytes
  pub text : s ≡ from_utf8_lossy bytes

-- A pointer to a string, or a null pointer.
pub data HoldsOptional (rem : Remote) (ptr : ℕ) : Option Text → Type 0 where
  null : ptr ≡ 0 → HoldsOptional rem ptr none
  points : {s : Text} → ptr ≢ 0 → HoldsString rem ptr s → HoldsOptional rem ptr (some s)

pub data HoldsName (rem : Remote) (ptr : ℕ) : Text → Type 0 where
  main : ptr ≡ 0 → HoldsName rem ptr intern_main
  named : {s : Text} → ptr ≢ 0 → HoldsString rem ptr s → HoldsName rem ptr s

pub data HoldsClass (rem : Remote) (scope : ℕ) : Option Text → Type 0 where
  no_scope : scope ≡ 0 → HoldsClass rem scope none
  scoped :
      {o : Option Text} (name : ℕ)
      → scope ≢ 0
      → name < 2 ^ 64
      → Stores rem (add64 scope Ce.name) (to_le_bytes 8 name)
      → HoldsOptional rem name o
      → HoldsClass rem scope o

-- The line of the instruction at `opline`; 0 without an instruction, or where it cannot be read.
pub data HoldsLine (rem : Remote) (opline : ℕ) : ℕ → Type 0 where
  no_opline : opline ≡ 0 → HoldsLine rem opline 0
  unmapped :
      opline ≢ 0
      → ((t : ℕ) → rem.readv t (add64 opline Op.lineno) 4 ≡ none)
      → HoldsLine rem opline 0
  at_line :
      {line : ℕ}
      → opline ≢ 0
      → line < 2 ^ 32
      → Stores rem (add64 opline Op.lineno) (to_le_bytes 4 line)
      → HoldsLine rem opline line

-- File and line by the kind of the function in `buf`.
pub data HoldsPosition (rem : Remote) (layout : VersionLayout) (buf : List ℕ) (ftype opline : ℕ)
    : Option Text → ℕ → Type 0 where
  user :
      {file : Option Text} {line : ℕ} (ptr current start : ℕ)
      → ftype ≡ Func.type_user
      → FieldAt buf layout.op_array_filename 8 ptr
      → FieldAt buf layout.op_array_line_start 4 start
      → HoldsOptional rem ptr file
      → HoldsLine rem opline current
      → ((current ≢ 0) × (line ≡ current)) ⊎ ((current ≡ 0) × (line ≡ start))
      → HoldsPosition rem layout buf ftype opline file line
  internal :
      ftype ≡ Func.type_internal
      → HoldsPosition rem layout buf ftype opline (some intern_internal) 0
  other :
      ftype ≢ Func.type_user
      → ftype ≢ Func.type_internal
      → HoldsPosition rem layout buf ftype opline none 0

-- A `zend_function` that the frame is in.
pub record HoldsFunction (rem : Remote) (layout : VersionLayout) (a opline : ℕ) (f : Frame)
    : Type 0 where
  pub buf : List ℕ
  pub ftype : ℕ
  pub name_ptr : ℕ
  pub scope_ptr : ℕ
  pub size : length buf ≡ 192
  pub stores : Stores rem a buf
  pub type_at : FieldAt buf Func.type 1 ftype
  pub name_at : FieldAt buf Func.function_name 8 name_ptr
  pub scope_at : FieldAt buf Func.scope 8 scope_ptr
  pub name : HoldsName rem name_ptr f.function
  pub class : HoldsClass rem scope_ptr f.class
  pub position : HoldsPosition rem layout buf ftype opline f.file f.line

-- The function of a frame, or none.
pub data HoldsCallee (rem : Remote) (layout : VersionLayout) (a opline : ℕ) : Frame → Type 0 where
  nowhere : a ≡ 0 → HoldsCallee rem layout a opline unknown_frame
  callee :
      {f : Frame} → a ≢ 0 → HoldsFunction rem layout a opline f → HoldsCallee rem layout a opline f

-- A `zend_execute_data` at `a`, with its frame and the address of its caller.
pub record HoldsFrame (rem : Remote) (layout : VersionLayout) (a : ℕ) (f : Frame) (prev : ℕ)
    : Type 0 where
  pub buf : List ℕ
  pub opline : ℕ
  pub func : ℕ
  pub size : length buf ≡ 64
  pub stores : Stores rem a buf
  pub opline_at : FieldAt buf Ex.opline 8 opline
  pub func_at : FieldAt buf Ex.func 8 func
  pub prev_at : FieldAt buf Ex.prev_execute_data 8 prev
  pub callee : HoldsCallee rem layout func opline f
