-- ===== src/Emulation/Logic.antt =====
-- impl_emulation.c: bitwise operations, moves, extensions, shifts and bit fields.
pub mod Clz
use libthumb2sim.Base.{
  ℕ, zero, suc, ◌+◌, ◌-◌, ◌*◌, ◌/◌, ◌%◌, ◌^◌, ◌≤◌, ◌<◌, ◌≡◌, ◌≢◌, ◌⊎◌, ◌↔◌, inl, inr, refl, sym, ap,
  ap₂, subst, ◌∙◌, Bool, true, false, not, ◌&&◌, ◌||◌, Option, none, some, List, [], ◌∷◌, ◌++◌, ltb,
  leb, ◌==◌, same, if◌then◌else◌, ◌>>=◌, u8, u16, u32, add32, sub32, mul32, not32, shl32, shr32,
  asr32, bit_and, bit_or, bit_xor, length, All, Bool-cases, Option-cases, arith, ltb→lt, lt→ltb,
  ==_iff, holds_below, holds_below_sound,
}
use libthumb2sim.Cpu.{
  Cpu, EmuCtx, InsnEmuCtx, IsMachine, reg_r0, reg_r1, reg_r2, reg_sp, reg_lr, reg_pc, get_reg,
  get_psr, memory, update, with_cpu, set_reg, set_psr, set_memory, set_advance_pc,
}
use libthumb2sim.Emulation.Flags.{
  flag_negative, flag_zero, flag_carry, flag_overflow, flag_saturation, flag_mask, it_none, it_then,
  it_else, is_negative, set_cond_code, cond_satisfied_psr, cond_satisfied, should_exec_next_insn,
  execution_unconditionally, add_cond_code, sub_cond_code, mov_cond_code, set_mov_cond_code,
  set_lsl_cond_code, set_sub_cond_code, set_add_cond_code,
}
use libthumb2sim.Emulation.Shift.{
  any_bit, bit_below, Shifted, barrel_shift, type_lsl, type_lsr, type_asr, type_ror,
}

-- The result in `rd`, and the N and Z flags of it if `s`.
abbrev pub set_reg_mov : InsnEmuCtx → ℕ → ℕ → Bool → InsnEmuCtx
set_reg_mov ctx rd value s =
    let ctx' = set_reg ctx rd value in
    if s then set_mov_cond_code ctx' true (get_reg ctx' rd) else ctx'

unfoldable pub i32_and_imm_t1 : InsnEmuCtx → ℕ → ℕ → ℕ → Bool → InsnEmuCtx
i32_and_imm_t1 ctx rd rn imm s =
    if rd == reg_pc && s
    then set_mov_cond_code ctx true (bit_and (get_reg ctx rn) imm)
    else set_reg_mov ctx rd (bit_and (get_reg ctx rn) imm) s

unfoldable pub i16_and_reg_t1 : InsnEmuCtx → ℕ → ℕ → InsnEmuCtx
i16_and_reg_t1 ctx rdn rm = set_reg_mov ctx rdn (bit_and (get_reg ctx rdn) (get_reg ctx rm)) true

unfoldable pub i32_and_reg_t2 : InsnEmuCtx → ℕ → ℕ → ℕ → ℕ → ℕ → Bool → Option InsnEmuCtx
i32_and_reg_t2 ctx rd rn rm imm shift_type s = if rd == reg_pc then some ctx else do
  out ← barrel_shift (get_reg ctx rm) shift_type imm
  some (set_reg_mov ctx rd (bit_and (get_reg ctx rn) out.value) s)

unfoldable pub i16_asr_imm_t1 : InsnEmuCtx → ℕ → ℕ → ℕ → Option InsnEmuCtx
i16_asr_imm_t1 ctx rd rm imm = do
  bit ← bit_below imm
  let carry = any_bit (get_reg ctx rm) bit
  value ← asr32 (get_reg ctx rm) imm
  some (set_lsl_cond_code (set_reg ctx rd value) false value carry)

unfoldable pub i32_bfi_t1 : InsnEmuCtx → ℕ → ℕ → ℕ → ℕ → Option InsnEmuCtx
i32_bfi_t1 ctx rd rn imm msb = do
  one ← shl32 1 msb
  let src_mask = sub32 one 1
  dest_mask ← shl32 src_mask imm
  let cleared = set_reg ctx rd (bit_and (get_reg ctx rd) (not32 dest_mask))
  field ← shl32 (bit_and (get_reg cleared rn) src_mask) imm
  some (set_reg cleared rd (bit_or (get_reg cleared rd) field))

unfoldable pub i32_bic_imm_t1 : InsnEmuCtx → ℕ → ℕ → ℕ → Bool → InsnEmuCtx
i32_bic_imm_t1 ctx rd rn imm s = set_reg_mov ctx rd (bit_and (get_reg ctx rn) (not32 imm)) s

unfoldable pub i32_bic_reg_t2 : InsnEmuCtx → ℕ → ℕ → ℕ → ℕ → ℕ → Bool → Option InsnEmuCtx
i32_bic_reg_t2 ctx rd rn rm imm shift_type s = if rd == reg_pc then some ctx else do
  out ← barrel_shift (get_reg ctx rm) shift_type imm
  some (set_reg_mov ctx rd (bit_and (get_reg ctx rn) (not32 out.value)) s)

-- `for (i = 0; i < 32; i++)` with the rounds left; the mask starts at `1 << 31` and is halved.
unfoldable pub clz_rounds : ℕ → ℕ → ℕ → ℕ → ℕ
clz_rounds zero i mask value = 32
clz_rounds (suc left) i mask value =
    let rest = clz_rounds left (i + 1) (mask / 2) value in
    if bit_and mask value == 0 then rest else i

unfoldable pub i32_clz_t1 : InsnEmuCtx → ℕ → ℕ → ℕ → InsnEmuCtx
i32_clz_t1 ctx rd rm rmx = set_reg ctx rd (clz_rounds 32 0 0x80000000 (get_reg ctx rm))

unfoldable pub i32_eor_imm_t1 : InsnEmuCtx → ℕ → ℕ → ℕ → Bool → InsnEmuCtx
i32_eor_imm_t1 ctx rd rn imm s = set_reg_mov ctx rd (bit_xor (get_reg ctx rn) imm) s

unfoldable pub i16_eor_reg_t1 : InsnEmuCtx → ℕ → ℕ → InsnEmuCtx
i16_eor_reg_t1 ctx rdn rm =
    let value = bit_xor (get_reg ctx rdn) (get_reg ctx rm) in
    set_mov_cond_code (set_reg ctx rdn value) false value

unfoldable pub i32_eor_reg_t2 : InsnEmuCtx → ℕ → ℕ → ℕ → ℕ → ℕ → Bool → Option InsnEmuCtx
i32_eor_reg_t2 ctx rd rn rm imm shift_type s = if rd == reg_pc then some ctx else do
  out ← barrel_shift (get_reg ctx rm) shift_type imm
  some (set_reg_mov ctx rd (bit_xor (get_reg ctx rn) out.value) s)

unfoldable pub i16_lsl_imm_t1 : InsnEmuCtx → ℕ → ℕ → ℕ → Option InsnEmuCtx
i16_lsl_imm_t1 ctx rd rm imm = do
  let carry = any_bit (get_reg ctx rm * 2 ^ imm) 0x100000000
  value ← shl32 (get_reg ctx rm) imm
  some (set_lsl_cond_code (set_reg ctx rd value) false value carry)

-- The result of the barrel shifter in `rd`, and its flags if `s`.
abbrev pub set_reg_shifted : InsnEmuCtx → ℕ → Shifted → Bool → InsnEmuCtx
set_reg_shifted ctx rd out s =
    let ctx' = set_reg ctx rd out.value in
    if s then set_lsl_cond_code ctx' true (get_reg ctx' rd) out.carry else ctx'

unfoldable pub i32_lsl_imm_t2 : InsnEmuCtx → ℕ → ℕ → ℕ → Bool → Option InsnEmuCtx
i32_lsl_imm_t2 ctx rd rm imm s = do
  out ← barrel_shift (get_reg ctx rm) type_lsl imm
  some (set_reg_shifted ctx rd out s)

-- The count is passed as a `uint8_t`.
unfoldable pub i16_lsl_reg_t1 : InsnEmuCtx → ℕ → ℕ → Option InsnEmuCtx
i16_lsl_reg_t1 ctx rdn rm = do
  out ← barrel_shift (get_reg ctx rdn) type_lsl (u8 (get_reg ctx rm))
  some (set_lsl_cond_code (set_reg ctx rdn out.value) false out.value out.carry)

unfoldable pub i32_lsl_reg_t2 : InsnEmuCtx → ℕ → ℕ → ℕ → Bool → Option InsnEmuCtx
i32_lsl_reg_t2 ctx rd rn rm s = do
  out ← barrel_shift (get_reg ctx rm) type_lsl (u8 (get_reg ctx rn))
  some (set_reg_shifted ctx rd out s)

unfoldable pub i16_lsr_imm_t1 : InsnEmuCtx → ℕ → ℕ → ℕ → Option InsnEmuCtx
i16_lsr_imm_t1 ctx rd rm imm = do
  bit ← bit_below imm
  let carry = any_bit (get_reg ctx rm) bit
  value ← shr32 (get_reg ctx rm) imm
  some (set_lsl_cond_code (set_reg ctx rd value) false value carry)

unfoldable pub i32_lsr_imm_t2 : InsnEmuCtx → ℕ → ℕ → ℕ → Bool → Option InsnEmuCtx
i32_lsr_imm_t2 ctx rd rm imm s = do
  bit ← bit_below imm
  let carry = any_bit (get_reg ctx rm) bit
  value ← shr32 (get_reg ctx rm) imm
  let ctx' = set_reg ctx rd value
  some (if s then set_lsl_cond_code ctx' false value carry else ctx')

-- `reg[Rm] ? reg[Rdn] & (1 << (reg[Rm] - 1)) : false`
abbrev pub carry_of_lsr : ℕ → ℕ → Option Bool
carry_of_lsr value count =
    if count == 0 then some false else do bit ← bit_below count; some (any_bit value bit)

unfoldable pub i16_lsr_reg_t1 : InsnEmuCtx → ℕ → ℕ → Option InsnEmuCtx
i16_lsr_reg_t1 ctx rdn rm = do
  carry ← carry_of_lsr (get_reg ctx rdn) (get_reg ctx rm)
  value ← shr32 (get_reg ctx rdn) (get_reg ctx rm)
  some (set_lsl_cond_code (set_reg ctx rdn value) true value carry)

unfoldable pub i32_lsr_reg_t2 : InsnEmuCtx → ℕ → ℕ → ℕ → Bool → Option InsnEmuCtx
i32_lsr_reg_t2 ctx rd rn rm s = do
  bit ← bit_below (get_reg ctx rm)
  let carry = any_bit (get_reg ctx rn) bit
  value ← shr32 (get_reg ctx rn) (get_reg ctx rm)
  let ctx' = set_reg ctx rd value
  some (if s then set_lsl_cond_code ctx' true value carry else ctx')
