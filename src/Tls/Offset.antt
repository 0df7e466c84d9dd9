-- ===== src/Tls/Offset.antt =====
-- src/tls.rs, `decode_tcb_offset`: the immediate that the accessor of the cache's slot returns.
--
-- An `i64` is its bit pattern. The masks and shifts of the AArch64 decoder are quotients and
-- remainders by powers of two.
pub mod Laws
use php_fast_profile.Base.{
  ℕ, ◌+◌, ◌*◌, ◌/◌, ◌%◌, ◌^◌, List, [], ◌∷◌, Bool, true, false, not, ◌&&◌, ◌||◌, length, take, drop,
  get_or, ltb, leb, ◌==◌, if◌then◌else◌, eqb, list_eq, nat_eq,
}
use php_fast_profile.Base.Act.{Outcome, ok, err, bad_prologue, lift, ◌>>=◌}
use php_fast_profile.Base.Bytes.{from_le_bytes, sign_extend32}
use php_fast_profile.Remote
use php_fast_profile.Remote.{Remote, Io}
use php_fast_profile.Symbols.{Arch, x86_64, aarch64}

abbrev pub endbr64 : List ℕ
endbr64 = 0xf3 ∷ 0x0f ∷ 0x1e ∷ 0xfa ∷ []

-- `mov imm32, %rax` and `ret`, in the bytes behind the landing pad.
unfoldable pub decode_mov : List ℕ → Outcome ℕ
decode_mov s =
    if get_or s 0 0 == 0x48 && get_or s 1 0 == 0xc7 && get_or s 2 0 == 0xc0 && get_or s 7 0 == 0xc3
    then ok (sign_extend32 (from_le_bytes (take 4 (drop 3 s))))
    else err bad_prologue

unfoldable pub decode_x86_64 : List ℕ → Outcome ℕ
decode_x86_64 buf =
    let off : ℕ = (if leb 4 (length buf) && eqb (take 4 buf) endbr64 then 4 else 0) in
    if ltb (length buf) (off + 8) then err bad_prologue else decode_mov (drop off buf)

-- `0xffff << (hw * 16)` set to a value, the other bits as they were.
unfoldable pub set_window : ℕ → ℕ → ℕ → ℕ
set_window imm shift chunk = imm / 2 ^ (shift + 16) * 2 ^ (shift + 16) + (chunk + imm % 2 ^ shift)

abbrev pub ret : ℕ
ret = 0xd65f03c0

-- MOVZ and MOVK of 64 bits, by the top nine bits of the instruction.
abbrev pub is_movz : ℕ → Bool
is_movz w = w / 2 ^ 23 == 0x1a5

abbrev pub is_movk : ℕ → Bool
is_movk w = w / 2 ^ 23 == 0x1e5

abbrev pub shift_of : ℕ → ℕ
shift_of w = w / 2 ^ 21 % 4 * 16

abbrev pub chunk_of : ℕ → ℕ
chunk_of w = w / 2 ^ 5 % 2 ^ 16 * 2 ^ shift_of w

-- What one instruction makes of the immediate and of `consumed_movz`.
pub data Decoded : Type 0 where
  returned : Decoded
  moved : ℕ → Decoded
  refused : Decoded

unfoldable pub decode_word : ℕ → Bool → ℕ → Decoded
decode_word imm consumed w =
    if w == ret
    then (if consumed then returned else refused)
    else if not (is_movz w || is_movk w) || not (w % 2 ^ 5 == 0)
    then refused
    else if is_movz w
    then moved (chunk_of w)
    else if consumed
    then moved (set_window imm (shift_of w) (chunk_of w))
    else refused

-- The loop over the instructions, four bytes a round.
unfoldable pub decode_words : ℕ → Bool → List ℕ → Outcome ℕ
decode_words imm consumed (a ∷ b ∷ c ∷ d ∷ buf) =
    elim (decode_word imm consumed (from_le_bytes (a ∷ b ∷ c ∷ d ∷ []))) [
      | returned ↦ ok imm
      | moved next ↦ decode_words next true buf
      | refused ↦ err bad_prologue
    ]
decode_words imm consumed _ = err bad_prologue

-- BTI and its variants: bits 5 to 7 are free.
abbrev pub is_bti : ℕ → Bool
is_bti w = w / 2 ^ 8 == 0xd50324 && w % 2 ^ 5 == 0x1f

unfoldable pub decode_aarch64 : List ℕ → Outcome ℕ
decode_aarch64 buf =
    if ltb (length buf) 12
    then err bad_prologue
    else (let off : ℕ = (if is_bti (from_le_bytes (take 4 buf)) then 4 else 0) in
        if ltb (length buf) (off + 8)
        then err bad_prologue
        else decode_words 0 false (drop off buf))

unfoldable pub decode_tcb_offset_bytes : Arch → List ℕ → Outcome ℕ
decode_tcb_offset_bytes x86_64 buf = decode_x86_64 buf
decode_tcb_offset_bytes aarch64 buf = decode_aarch64 buf

unfoldable pub decode_tcb_offset : Arch → Remote → ℕ → Io ℕ
decode_tcb_offset host rem fn_addr = do
  buf ← Remote.read rem fn_addr 24
  lift (decode_tcb_offset_bytes host buf)
