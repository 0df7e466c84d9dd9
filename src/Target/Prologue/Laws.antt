-- ===== src/Target/Prologue/Laws.antt =====
-- The x86_64 decoder against the encoding of the accessor.
use php_fast_profile.Base.{
  ℕ, ◌+◌, ◌%◌, ◌^◌, ◌<◌, List, [], ◌∷◌, ◌++◌, Bool, true, false, ◌≡◌, refl, arith, if◌then◌else◌,
  ◌∙◌, ap,
}
use php_fast_profile.Base.Act.{ok}
use php_fast_profile.Base.Bytes.{
  to_le_bytes, from_le_bytes, add64, sign_extend32, from_le_bytes-to_le_bytes_4,
}
use php_fast_profile.Target.Prologue.{
  endbr64, lea_rax_rip, decode_lea, decode_x86_64, decode_php_version_prologue,
}
use php_fast_profile.Symbols.{x86_64}

-- The accessor's code: a landing pad or none, `lea rax, [rip + disp]`, `ret`, and what follows.
abbrev pub accessor : Bool → ℕ → List ℕ → List ℕ
accessor landing_pad disp rest =
    (if landing_pad then endbr64 else []) ++ (lea_rax_rip ++ (to_le_bytes 4 disp ++ (0xc3 ∷ rest)))

abbrev pub lea_end : Bool → ℕ
lea_end landing_pad = if landing_pad then 11 else 7

decode_lea-bytes :
    (fn_addr off a b c d : ℕ) (rest : List ℕ)
    → decode_lea fn_addr off (0x48 ∷ 0x8d ∷ 0x05 ∷ a ∷ b ∷ c ∷ d ∷ 0xc3 ∷ rest)
      ≡ ok
          (add64 (add64 (add64 fn_addr off) 7) (sign_extend32 (from_le_bytes (a ∷ b ∷ c ∷ d ∷ []))))
unfolding decode_lea
decode_lea-bytes fn_addr off a b c d rest = ground arith

decode_lea-accessor :
    (fn_addr off disp : ℕ) (rest : List ℕ)
    → disp < 2 ^ 32
    → decode_lea fn_addr off (accessor false disp rest)
      ≡ ok (add64 (add64 (add64 fn_addr off) 7) (sign_extend32 disp))
unfolding to_le_bytes
decode_lea-accessor fn_addr off disp rest h =
    decode_lea-bytes fn_addr off _ _ _ _ rest
    ∙ ap (λ v. ok (add64 (add64 (add64 fn_addr off) 7) (sign_extend32 v)))
        (from_le_bytes-to_le_bytes_4 disp h)

add_three : (a b c d n : ℕ) → b + c ≡ n → add64 (add64 (add64 a b) c) d ≡ (a + n + d) % 2 ^ 64
add_three a b c d n e = omega arith

-- Without a landing pad the code does not start like one.
decode_plain :
    (fn_addr disp : ℕ) (rest : List ℕ)
    → decode_x86_64 fn_addr (accessor false disp rest)
      ≡ decode_lea fn_addr 0 (accessor false disp rest)
unfolding decode_x86_64
decode_plain fn_addr disp rest = unfold to_le_bytes in ground arith

decode_padded :
    (fn_addr disp : ℕ) (rest : List ℕ)
    → decode_x86_64 fn_addr (accessor true disp rest)
      ≡ decode_lea fn_addr 4 (accessor false disp rest)
unfolding decode_x86_64
decode_padded fn_addr disp rest = unfold to_le_bytes in ground arith

-- The prologue of the accessor, with a landing pad or without, decodes to the address behind its
-- `lea` plus the signed displacement, modulo 2^64, whatever follows its `ret`.
pub decode-accessor :
    (landing_pad : Bool) (fn_addr disp : ℕ) (rest : List ℕ)
    → disp < 2 ^ 32
    → decode_php_version_prologue x86_64 fn_addr (accessor landing_pad disp rest)
      ≡ ok ((fn_addr + lea_end landing_pad + sign_extend32 disp) % 2 ^ 64)
unfolding decode_php_version_prologue
decode-accessor true fn_addr disp rest h =
    decode_padded fn_addr disp rest
    ∙ decode_lea-accessor fn_addr 4 disp rest h
    ∙ ap ok (add_three fn_addr 4 7 (sign_extend32 disp) 11 refl)
decode-accessor false fn_addr disp rest h =
    decode_plain fn_addr disp rest
    ∙ decode_lea-accessor fn_addr 0 disp rest h
    ∙ ap ok (add_three fn_addr 0 7 (sign_extend32 disp) 7 refl)
