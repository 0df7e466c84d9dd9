-- ===== src/Tls/Offset/Laws.antt =====
-- The decoders of the slot's offset against the code that compilers make of the accessor.
use php_fast_profile.Base.{
  ℕ, ◌+◌, ◌*◌, ◌^◌, ◌<◌, ◌≤◌, List, [], ◌∷◌, ◌++◌, Bool, true, false, length, ◌≡◌, refl, ◌∙◌, ap,
  arith, if◌then◌else◌,
}
use php_fast_profile.Base.Act.{ok}
use php_fast_profile.Base.Bytes.{
  to_le_bytes, from_le_bytes, sign_extend32, from_le_bytes-to_le_bytes_4,
}
use php_fast_profile.Symbols.{x86_64, aarch64}
use php_fast_profile.Tls.Offset.{
  is_bti, endbr64, decode_mov, decode_x86_64, ret, returned, moved, decode_word, decode_words,
  decode_aarch64, set_window, decode_tcb_offset_bytes,
}

-- A landing pad or none, `mov $imm, %rax`, `ret`, and what follows.
abbrev pub mov_accessor : Bool → ℕ → List ℕ → List ℕ
mov_accessor landing_pad imm rest =
    (if landing_pad then endbr64 else [])
    ++ (0x48 ∷ 0xc7 ∷ 0xc0 ∷ (to_le_bytes 4 imm ++ (0xc3 ∷ rest)))

decode_mov-bytes :
    (a b c d : ℕ) (rest : List ℕ)
    → decode_mov (0x48 ∷ 0xc7 ∷ 0xc0 ∷ a ∷ b ∷ c ∷ d ∷ 0xc3 ∷ rest)
      ≡ ok (sign_extend32 (from_le_bytes (a ∷ b ∷ c ∷ d ∷ [])))
unfolding decode_mov
decode_mov-bytes a b c d rest = ground arith

decode_mov-accessor :
    (imm : ℕ) (rest : List ℕ)
    → imm < 2 ^ 32
    → decode_mov (mov_accessor false imm rest) ≡ ok (sign_extend32 imm)
unfolding to_le_bytes
decode_mov-accessor imm rest h =
    decode_mov-bytes _ _ _ _ rest
    ∙ ap (λ v. ok (sign_extend32 v)) (from_le_bytes-to_le_bytes_4 imm h)

x86_64-pad :
    (landing_pad : Bool) (imm : ℕ) (rest : List ℕ)
    → decode_x86_64 (mov_accessor landing_pad imm rest) ≡ decode_mov (mov_accessor false imm rest)
unfolding decode_x86_64
x86_64-pad true imm rest = unfold to_le_bytes in ground arith
x86_64-pad false imm rest = unfold to_le_bytes in ground arith

-- The accessor of an x86_64 build, with a landing pad or without, decodes to its immediate,
-- sign-extended from 32 bits, whatever follows its `ret`.
pub decode-mov_accessor :
    (landing_pad : Bool) (imm : ℕ) (rest : List ℕ)
    → imm < 2 ^ 32
    → decode_tcb_offset_bytes x86_64 (mov_accessor landing_pad imm rest) ≡ ok (sign_extend32 imm)
unfolding decode_tcb_offset_bytes
decode-mov_accessor landing_pad imm rest h =
    x86_64-pad landing_pad imm rest ∙ decode_mov-accessor imm rest h

-- `movz x0, #imm` and `movk x0, #imm, lsl #16`.
abbrev pub movz : ℕ → ℕ
movz imm = 0xd2800000 + imm * 2 ^ 5

abbrev pub movk : ℕ → ℕ
movk imm = 0xf2a00000 + imm * 2 ^ 5

-- A `bti c` or none, a MOVZ, a MOVK for the bits from 16 on, RET, and what follows.
abbrev pub movz_accessor : Bool → ℕ → ℕ → List ℕ → List ℕ
movz_accessor landing_pad lo hi rest =
    (if landing_pad then to_le_bytes 4 0xd503245f else [])
    ++ (to_le_bytes 4 (movz lo) ++ (to_le_bytes 4 (movk hi) ++ (to_le_bytes 4 ret ++ rest)))

decode_word-movz : (lo : ℕ) → lo < 2 ^ 16 → decode_word 0 false (movz lo) ≡ moved lo
unfolding decode_word
decode_word-movz lo h = ground arith

decode_word-movk :
    (lo hi : ℕ)
    → lo < 2 ^ 16
    → hi < 2 ^ 16
    → decode_word lo true (movk hi) ≡ moved (lo + hi * 2 ^ 16)
unfolding decode_word set_window
decode_word-movk lo hi h k = ground arith

decode_word-ret : (imm : ℕ) → decode_word imm true ret ≡ returned
unfolding decode_word
decode_word-ret imm = refl

decode_words-bytes :
    (imm next a b c d : ℕ) (consumed : Bool) (buf : List ℕ)
    → decode_word imm consumed (from_le_bytes (a ∷ b ∷ c ∷ d ∷ [])) ≡ moved next
    → decode_words imm consumed (a ∷ b ∷ c ∷ d ∷ buf) ≡ decode_words next true buf
unfolding decode_words
decode_words-bytes imm next a b c d consumed buf e = rw (decode_words, e) refl

decode_words-moved :
    (imm w next : ℕ) (consumed : Bool) (buf : List ℕ)
    → w < 2 ^ 32
    → decode_word imm consumed w ≡ moved next
    → decode_words imm consumed (to_le_bytes 4 w ++ buf) ≡ decode_words next true buf
unfolding to_le_bytes
decode_words-moved imm w next consumed buf h e =
    decode_words-bytes imm next _ _ _ _ consumed buf
      (ap (λ v. decode_word imm consumed v) (from_le_bytes-to_le_bytes_4 w h) ∙ e)

decode_words-ret :
    (imm : ℕ) (rest : List ℕ) → decode_words imm true (to_le_bytes 4 ret ++ rest) ≡ ok imm
unfolding decode_words decode_word to_le_bytes from_le_bytes
decode_words-ret imm rest = refl

decode_words-chain :
    (lo hi : ℕ) (rest : List ℕ)
    → lo < 2 ^ 16
    → hi < 2 ^ 16
    → decode_words 0 false (movz_accessor false lo hi rest) ≡ ok (lo + hi * 2 ^ 16)
decode_words-chain lo hi rest h k =
    decode_words-moved 0 (movz lo) lo false _ (omega arith) (decode_word-movz lo h)
    ∙ decode_words-moved lo (movk hi) (lo + hi * 2 ^ 16) true _ (omega arith)
        (decode_word-movk lo hi h k)
    ∙ decode_words-ret (lo + hi * 2 ^ 16) rest

-- The landing pad is skipped, and nothing else is.
skip_pad :
    (a b c d : ℕ) (buf : List ℕ)
    → 8 ≤ length buf
    → is_bti (from_le_bytes (a ∷ b ∷ c ∷ d ∷ [])) ≡ true
    → decode_aarch64 (a ∷ b ∷ c ∷ d ∷ buf) ≡ decode_words 0 false buf
unfolding decode_aarch64
skip_pad a b c d buf h e = rw e (ground arith)

no_pad :
    (a b c d : ℕ) (buf : List ℕ)
    → 8 ≤ length buf
    → is_bti (from_le_bytes (a ∷ b ∷ c ∷ d ∷ [])) ≡ false
    → decode_aarch64 (a ∷ b ∷ c ∷ d ∷ buf) ≡ decode_words 0 false (a ∷ b ∷ c ∷ d ∷ buf)
unfolding decode_aarch64
no_pad a b c d buf h e = rw e (ground arith)

movz-not_bti : (lo : ℕ) → lo < 2 ^ 16 → is_bti (movz lo) ≡ false
movz-not_bti lo h = ground arith

aarch64-pad :
    (landing_pad : Bool) (lo hi : ℕ) (rest : List ℕ)
    → lo < 2 ^ 16
    → decode_aarch64 (movz_accessor landing_pad lo hi rest)
      ≡ decode_words 0 false (movz_accessor false lo hi rest)
unfolding to_le_bytes
aarch64-pad true lo hi rest h = skip_pad _ _ _ _ _ (omega arith) (unfold from_le_bytes in refl)
aarch64-pad false lo hi rest h =
    no_pad _ _ _ _ _ (omega arith)
      (ap (λ v. is_bti v) (from_le_bytes-to_le_bytes_4 (movz lo) (omega arith)) ∙ movz-not_bti lo h)

-- The accessor of an AArch64 build that loads an immediate of 32 bits by a MOVZ and a MOVK, with
-- a `bti c` or without, decodes to that immediate, whatever follows its RET.
pub decode-movz_accessor :
    (landing_pad : Bool) (lo hi : ℕ) (rest : List ℕ)
    → lo < 2 ^ 16
    → hi < 2 ^ 16
    → decode_tcb_offset_bytes aarch64 (movz_accessor landing_pad lo hi rest) ≡ ok (lo + hi * 2 ^ 16)
unfolding decode_tcb_offset_bytes
decode-movz_accessor landing_pad lo hi rest h k =
    aarch64-pad landing_pad lo hi rest h ∙ decode_words-chain lo hi rest h k
