-- ===== src/Zend/Walker.antt =====
-- src/zend.rs, `StackWalker`: reads of stack frames with a cache of strings.
--
-- The state is the cache, which is the walker's one mutable field, and the number of calls of
-- `process_vm_readv`. The three interned constants are literals.
pub mod Budget
pub mod Stored
pub mod Regions
pub mod Coherence
pub mod Faithful
use php_fast_profile.Base.{
  ℕ, List, [], Option, none, some, length, ltb, ◌==◌, if◌then◌else◌, nat_eq,
}
use php_fast_profile.Base.Act.{ok, Act, pure, lift, unwrap_or, ◌>>=◌}
use php_fast_profile.Base.Bytes.{add64}
use php_fast_profile.Base.Map.{HashMap, lookup, insert}
use php_fast_profile.Base.Text.{Text, codes}
use php_fast_profile.Remote
use php_fast_profile.Remote.{Remote, Io}
use php_fast_profile.Offsets.{VersionLayout}
use php_fast_profile.Offsets.Ex
use php_fast_profile.Offsets.Func
use php_fast_profile.Offsets.Op
use php_fast_profile.Offsets.Ce
use php_fast_profile.Zend.Frame.{Frame}
use php_fast_profile.Zend.Reads.{read_u64, read_u32, byte_at, read_zend_string}

pub record Walker : Type 0 where
  pub string_cache : HashMap ℕ Text
  pub calls : ℕ

-- `StackWalker::new`
abbrev pub new_walker : Walker
new_walker = record { string_cache = []; calls = 0 }

abbrev pub Walk {ℓ} : Type ℓ → Type ℓ
Walk A = Act Walker A

-- A read that does not look at the cache.
unfoldable pub io {ℓ} : {A : Type ℓ} → Io A → Walk A
io m w = let (r, t) = m w.calls in (r, record w { calls = t })

abbrev pub intern_main : Text
intern_main = codes "{main}"

abbrev pub intern_internal : Text
intern_internal = codes "<internal>"

abbrev pub intern_unknown : Text
intern_unknown = codes "<unknown>"

abbrev pub ex_buf : ℕ
ex_buf = 64

abbrev pub func_buf : ℕ
func_buf = 192

abbrev pub cache_limit : ℕ
cache_limit = 8192

-- A string that was read is kept while there is room.
unfoldable pub remember : ℕ → Text → Walk Text
remember addr s w =
    if ltb (length w.string_cache) cache_limit
    then (ok s, record w { string_cache = insert addr s w.string_cache })
    else (ok s, w)

cached : Remote → ℕ → Option Text → Walk Text
cached rem addr (some s) = pure s
cached rem addr none = do s ← io (read_zend_string rem addr); remember addr s

unfoldable pub read_zstring_cached : Remote → ℕ → Walk Text
unfolding cached
read_zstring_cached rem addr w = cached rem addr (lookup addr w.string_cache) w

-- `Some(read_zstring_cached(..)?)`
pub optional_string : Remote → ℕ → Walk (Option Text)
optional_string rem ptr =
    if ptr == 0 then pure none else do s ← read_zstring_cached rem ptr; pure (some s)

unfoldable pub read_function : Remote → ℕ → Walk Text
read_function rem name_ptr =
    if name_ptr == 0 then pure intern_main else read_zstring_cached rem name_ptr

unfoldable pub read_class : Remote → ℕ → Walk (Option Text)
unfolding optional_string
read_class rem scope_ptr = if scope_ptr == 0 then pure none else do
  class_name_ptr ← io (Remote.read_u64 rem (add64 scope_ptr Ce.name))
  optional_string rem class_name_ptr

-- The line of the current instruction, 0 if it is not known.
unfoldable pub read_opline : Remote → ℕ → Walk ℕ
read_opline rem opline_ptr =
    if opline_ptr == 0
    then pure 0
    else io (unwrap_or (Remote.read_u32 rem (add64 opline_ptr Op.lineno)) 0)

-- File and line of a user function; the function's first line stands in for a line that is 0.
unfoldable pub read_user : Remote → VersionLayout → List ℕ → ℕ → Walk (Option Text × ℕ)
unfolding optional_string
read_user rem layout buf opline_ptr = do
  file_ptr ← lift (read_u64 buf layout.op_array_filename)
  file ← optional_string rem file_ptr
  line ← read_opline rem opline_ptr
  if line == 0
      then (do start ← lift (read_u32 buf layout.op_array_line_start); pure (file, start))
      else pure (file, line)

unfoldable pub read_position : Remote → VersionLayout → List ℕ → ℕ → ℕ → Walk (Option Text × ℕ)
read_position rem layout buf ftype opline_ptr =
    if ftype == Func.type_user
    then read_user rem layout buf opline_ptr
    else pure (if ftype == Func.type_internal then some intern_internal else none, 0)

-- The part of `read_frame` behind the read of the function's structure.
unfoldable pub decode_function : Remote → VersionLayout → List ℕ → ℕ → Walk Frame
decode_function rem layout buf opline_ptr = do
  ftype ← lift (byte_at buf Func.type)
  name_ptr ← lift (read_u64 buf Func.function_name)
  scope_ptr ← lift (read_u64 buf Func.scope)
  function ← read_function rem name_ptr
  class ← read_class rem scope_ptr
  position ← read_position rem layout buf ftype opline_ptr
  let (file, line) = position
  pure (record { function = function; class = class; file = file; line = line })

abbrev pub unknown_frame : Frame
unknown_frame = record { function = intern_unknown; class = none; file = none; line = 0 }

unfoldable pub read_function_at : Remote → VersionLayout → ℕ → ℕ → Walk Frame
read_function_at rem layout func_ptr opline_ptr =
    if func_ptr == 0
    then pure unknown_frame
    else do buf ← io (Remote.read rem func_ptr func_buf); decode_function rem layout buf opline_ptr

-- One frame, and the address of the frame that called it.
unfoldable pub read_frame : Remote → VersionLayout → ℕ → Walk (Frame × ℕ)
read_frame rem layout ex_addr = do
  buf ← io (Remote.read rem ex_addr ex_buf)
  opline_ptr ← lift (read_u64 buf Ex.opline)
  func_ptr ← lift (read_u64 buf Ex.func)
  prev ← lift (read_u64 buf Ex.prev_execute_data)
  frame ← read_function_at rem layout func_ptr opline_ptr
  pure (frame, prev)
