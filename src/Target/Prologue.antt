-- ===== src/Target/Prologue.antt =====
-- src/target.rs, `read_php_version`: the address that the accessor `php_version` returns, decoded
-- from its first instructions.
--
-- `i64` and `u64` have one bit pattern. `!m` is the 64-bit complement.
pub mod Laws
use php_fast_profile.Base.{
  ℕ, ◌+◌, ◌-◌, ◌*◌, ◌/◌, ◌%◌, ◌^◌, bit_and, bit_or, List, [], ◌∷◌, Bool, true, false, ◌&&◌, ◌||◌,
  not, length, take, drop, get_or, ltb, leb, ◌==◌, if◌then◌else◌, eqb, list_eq, nat_eq,
}
use php_fast_profile.Base.Act.{Outcome, ok, err, bad_prologue, pure, lift, ◌>>=◌}
use php_fast_profile.Base.Bytes.{from_le_bytes, add64, sign_extend32}
use php_fast_profile.Base.Text.{Text}
use php_fast_profile.Remote
use php_fast_profile.Remote.{Remote, Io}
use php_fast_profile.Symbols.{Arch, x86_64, aarch64}

abbrev pub endbr64 : List ℕ
endbr64 = 0xf3 ∷ 0x0f ∷ 0x1e ∷ 0xfa ∷ []

abbrev pub lea_rax_rip : List ℕ
lea_rax_rip = 0x48 ∷ 0x8d ∷ 0x05 ∷ []

-- From the offset of the `lea` on; its displacement is the four bytes behind its opcode.
unfoldable pub decode_lea : ℕ → ℕ → List ℕ → Outcome ℕ
decode_lea fn_addr lea_off lea =
    if ltb (length lea) 8 || not (eqb (take 3 lea) lea_rax_rip) || not (get_or lea 7 0 == 0xc3)
    then err bad_prologue
    else (let disp = sign_extend32 (from_le_bytes (take 4 (drop 3 lea))) in
        ok (add64 (add64 (add64 fn_addr lea_off) 7) disp))

unfoldable pub decode_x86_64 : ℕ → List ℕ → Outcome ℕ
decode_x86_64 fn_addr buf =
    let lea_off : ℕ = (if leb 4 (length buf) && eqb (take 4 buf) endbr64 then 4 else 0) in
    decode_lea fn_addr lea_off (drop lea_off buf)

-- The instruction of 32 bits at an offset of a buffer that holds it.
abbrev pub insn_at : List ℕ → ℕ → ℕ
insn_at p off = from_le_bytes (take 4 (drop off p))

-- The address of the page that an ADRP at `adrp_pc` names, 21 bits of it sign-extended.
unfoldable pub adrp_page : ℕ → ℕ → ℕ
adrp_page adrp_pc adrp =
    let immlo = bit_and (adrp / 2 ^ 29) 0x3 in
    let immhi = bit_and (adrp / 2 ^ 5) 0x7ffff in
    let imm = bit_or (immhi * 4) immlo in
    let imm : ℕ = (if bit_and imm (2 ^ 20) == 0 then imm else bit_or imm (2 ^ 64 - 2 ^ 21)) in
    add64 (bit_and adrp_pc (2 ^ 64 - 2 ^ 12)) ((imm * 2 ^ 12) % 2 ^ 64)

unfoldable pub decode_adrp : ℕ → List ℕ → Outcome ℕ
decode_adrp adrp_pc p =
    let adrp = insn_at p 0 in
    let add = insn_at p 4 in
    let ret = insn_at p 8 in
    if not (bit_and adrp 0x9f000000 == 0x90000000)
    then err bad_prologue
    else if not (bit_and add 0xff800000 == 0x91000000)
    then err bad_prologue
    else if not (ret == 0xd65f03c0)
    then err bad_prologue
    else ok (add64 (adrp_page adrp_pc adrp) (bit_and (add / 2 ^ 10) 0xfff))

unfoldable pub decode_aarch64 : ℕ → List ℕ → Outcome ℕ
decode_aarch64 fn_addr buf =
    if ltb (length buf) 16
    then err bad_prologue
    else (let prologue_off : ℕ =
          (if bit_and (insn_at buf 0) 0xffffff1f == 0xd503241f then 4 else 0) in
        if ltb (length buf) (prologue_off + 12)
        then err bad_prologue
        else decode_adrp (add64 fn_addr prologue_off) (drop prologue_off buf))

unfoldable pub decode_php_version_prologue : Arch → ℕ → List ℕ → Outcome ℕ
decode_php_version_prologue x86_64 fn_addr buf = decode_x86_64 fn_addr buf
decode_php_version_prologue aarch64 fn_addr buf = decode_aarch64 fn_addr buf

unfoldable pub read_php_version : Arch → Remote → ℕ → Io Text
read_php_version host rem fn_addr = do
  buf ← Remote.read rem fn_addr 20
  str_addr ← lift (decode_php_version_prologue host fn_addr buf)
  Remote.read_cstring rem str_addr 32
