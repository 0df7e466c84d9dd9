-- ===== src/Zend/Walker/Faithful.antt =====
-- From memory that holds a frame, `read_frame` reads that frame and the address of its caller.
use php_fast_profile.Base.{
  ℕ, List, false, Option, none, some, ◌≡◌, ◌≢◌, ◌⊎◌, inl, inr, arith, ◌==◌, if◌then◌else◌, nat_eq,
}
use php_fast_profile.Base.Act.{pure, lift, readv_failed, ◌>>=◌}
use php_fast_profile.Base.Bytes.{add64}
use php_fast_profile.Base.Gives.{
  Gives, Fails, Gives-pure, Gives-lift, Gives-true, Gives-false, Gives-unwrap_or, Fails-unwrap_or,
  Gives-bind,
}
use php_fast_profile.Base.Text.{Text}
use php_fast_profile.Remote
use php_fast_profile.Remote.{Remote, Io}
use php_fast_profile.Offsets.{VersionLayout}
use php_fast_profile.Offsets.Op
use php_fast_profile.Zend.Frame.{Frame}
use php_fast_profile.Zend.Reads.{read_u32}
use php_fast_profile.Zend.Walker.{
  read_opline, read_user, read_position, decode_function, read_function_at, read_frame,
  intern_internal,
}
use php_fast_profile.Zend.Walker.Stored.{
  HoldsLine, no_opline, unmapped, at_line, HoldsPosition, user, internal, other, HoldsFunction,
  HoldsCallee, nowhere, callee, HoldsFrame,
}
use php_fast_profile.Zend.Walker.Regions.{
  Always, always, read_u64-FieldAt, read_u32-FieldAt, byte_at-FieldAt, read_u32-Stores,
}
use php_fast_profile.Zend.Walker.Coherence.{
  IsCoherent, io-Gives, stored_buffer, test_false, test_true, optional_string-Gives,
  read_function-Gives, read_class-Gives,
}

unmapped_word :
    (rem : Remote) (a : ℕ)
    → ((t : ℕ) → rem.readv t a 4 ≡ none)
    → Fails Always (Remote.read_u32 rem a)
unfolding Remote.read_u32 Remote.read
unmapped_word rem a h = record { at = λ t _. (readv_failed, ground (arith, h t), tt) }

module _ (rem : Remote) where
  read_opline-Gives :
      (opline : ℕ) {line : ℕ}
      → HoldsLine rem opline line
      → Gives (IsCoherent rem) (read_opline rem opline) line
  unfolding read_opline
  read_opline-Gives opline (no_opline e) =
      Gives-true (opline == 0) _ _ (test_true rem opline 0 e) (Gives-pure 0)
  read_opline-Gives opline (unmapped ne h) =
      Gives-false (opline == 0) _ _ (test_false rem opline ne)
        (io-Gives rem _ 0 (Fails-unwrap_or _ 0 (unmapped_word rem (add64 opline Op.lineno) h)))
  read_opline-Gives opline (at_line {line} ne lt h) =
      Gives-false (opline == 0) _ _ (test_false rem opline ne) (
        io-Gives rem _ line (
          Gives-unwrap_or _ 0 line
            (always _ line (λ t. read_u32-Stores rem (add64 opline Op.lineno) t lt h))))

module _ (rem : Remote) (layout : VersionLayout) where
  read_position-Gives :
      (buf : List ℕ) (ftype opline : ℕ) {file : Option Text} {line : ℕ}
      → HoldsPosition rem layout buf ftype opline file line
      → Gives {A = Option Text × ℕ}
          (IsCoherent rem)
          (read_position rem layout buf ftype opline)
          (file, line)
  unfolding read_position read_user
  read_position-Gives buf ftype opline (user {file} {line} ptr current start k f s o l choice) =
      Gives-true (ftype == 2) _ _ (test_true rem ftype 2 k) (
        Gives-bind _ _ ptr _ (Gives-lift _ ptr (read_u64-FieldAt f)) (
          Gives-bind _ _ file _ (optional_string-Gives rem ptr o)
            (Gives-bind _ _ current _ (read_opline-Gives rem opline l) (chosen choice))))
    where
      chosen :
          ((current ≢ 0) × (line ≡ current)) ⊎ ((current ≡ 0) × (line ≡ start))
          → Gives {A = Option Text × ℕ}
              (IsCoherent rem)
              (if current == 0
                then (do first ← lift (read_u32 buf layout.op_array_line_start); pure (file, first))
                else pure (file, current))
              (file, line)
      chosen (inl (ne, e)) =
          rw e (
            Gives-false (current == 0) _ _ (test_false rem current ne) (Gives-pure (file, current)))
      chosen (inr (z, e)) = rw e (
          Gives-true (current == 0) _ _ (test_true rem current 0 z) (
            Gives-bind _ _ start _ (Gives-lift _ start (read_u32-FieldAt s))
              (Gives-pure (file, start))))
  read_position-Gives buf ftype opline (internal k) =
      Gives-false (ftype == 2) _ _ (ground arith)
        (simp (test_true rem ftype 1 k) (Gives-pure (some intern_internal, 0)))
  read_position-Gives buf ftype opline (other h k) =
      let e : (ftype == 1) ≡ false = ground arith in
      Gives-false (ftype == 2) _ _ (ground arith) (simp e (Gives-pure (none, 0)))

  decode_function-Gives :
      (a opline : ℕ) {f : Frame} (h : HoldsFunction rem layout a opline f)
      → Gives (IsCoherent rem) (decode_function rem layout h.buf opline) f
  unfolding decode_function
  decode_function-Gives a opline {f} h =
      Gives-bind _ _ h.ftype _ (Gives-lift _ _ (byte_at-FieldAt h.type_at)) (
        Gives-bind _ _ h.name_ptr _ (Gives-lift _ _ (read_u64-FieldAt h.name_at)) (
          Gives-bind _ _ h.scope_ptr _ (Gives-lift _ _ (read_u64-FieldAt h.scope_at)) (
            Gives-bind _ _ f.function _ (read_function-Gives rem _ h.name) (
              Gives-bind _ _ f.class _ (read_class-Gives rem _ h.class) (
                Gives-bind _ _ (f.file, f.line) _
                  (read_position-Gives h.buf h.ftype opline h.position) (Gives-pure f))))))

  read_function_at-Gives :
      (a opline : ℕ) {f : Frame}
      → HoldsCallee rem layout a opline f
      → Gives (IsCoherent rem) (read_function_at rem layout a opline) f
  unfolding read_function_at
  read_function_at-Gives a opline (nowhere e) =
      Gives-true (a == 0) _ _ (test_true rem a 0 e) (Gives-pure _)
  read_function_at-Gives a opline (callee {f} ne h) =
      Gives-false (a == 0) _ _ (test_false rem a ne) (
        Gives-bind _ _ h.buf _ (stored_buffer rem a 192 h.buf h.size (omega arith) h.stores)
          (decode_function-Gives a opline h))

  pub read_frame-Gives :
      (a : ℕ) {f : Frame} {prev : ℕ}
      → HoldsFrame rem layout a f prev
      → Gives (IsCoherent rem) (read_frame rem layout a) (f, prev)
  unfolding read_frame
  read_frame-Gives a {f} {prev} h =
      Gives-bind _ _ h.buf _ (stored_buffer rem a 64 h.buf h.size (omega arith) h.stores) (
        Gives-bind _ _ h.opline _ (Gives-lift _ _ (read_u64-FieldAt h.opline_at)) (
          Gives-bind _ _ h.func _ (Gives-lift _ _ (read_u64-FieldAt h.func_at)) (
            Gives-bind _ _ prev _ (Gives-lift _ _ (read_u64-FieldAt h.prev_at)) (
              Gives-bind _ _ f _ (read_function_at-Gives h.func h.opline h.callee)
                (Gives-pure (f, prev))))))
