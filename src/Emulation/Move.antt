-- ===== src/Emulation/Move.antt =====
-- impl_emulation.c: moves, complements, extensions and tests.
use libthumb2sim.Base.{
  ℕ, ◌+◌, ◌-◌, ◌*◌, ◌/◌, ◌^◌, Bool, true, false, ◌&&◌, Option, some, ltb, ◌==◌, if◌then◌else◌,
  ◌>>=◌, u8, u32, add32, sub32, not32, shl32, shr32, bit_and, bit_or,
}
use libthumb2sim.Cpu.{InsnEmuCtx, reg_pc, get_reg, get_psr, set_reg, set_psr}
use libthumb2sim.Emulation.Flags.{set_mov_cond_code}
use libthumb2sim.Emulation.Shift.{barrel_shift, type_ror}
use libthumb2sim.Emulation.Logic.{set_reg_mov, set_reg_shifted}

-- `conditionForExecutionSatisfied` is always true.
unfoldable pub i16_mov_imm_t1 : InsnEmuCtx → ℕ → ℕ → InsnEmuCtx
i16_mov_imm_t1 ctx rd imm = set_mov_cond_code (set_reg ctx rd imm) false imm

unfoldable pub i32_mov_imm_t2 : InsnEmuCtx → ℕ → ℕ → Bool → InsnEmuCtx
i32_mov_imm_t2 ctx rd imm s =
    let ctx' = set_reg ctx rd imm in if s then set_mov_cond_code ctx' true imm else ctx'

unfoldable pub i32_mov_imm_t3 : InsnEmuCtx → ℕ → ℕ → InsnEmuCtx
i32_mov_imm_t3 ctx rd imm = set_reg ctx rd imm

unfoldable pub i16_mov_reg_t1 : InsnEmuCtx → ℕ → ℕ → InsnEmuCtx
i16_mov_reg_t1 ctx rd rm =
    let ctx' = set_reg ctx rd (get_reg ctx rm) in
    if rm == reg_pc then set_reg ctx' rd (add32 (get_reg ctx' rd) 4) else ctx'

unfoldable pub i16_mov_reg_t2 : InsnEmuCtx → ℕ → ℕ → InsnEmuCtx
i16_mov_reg_t2 ctx rd rm = set_reg ctx rd (get_reg ctx rm)

unfoldable pub i32_movt_t1 : InsnEmuCtx → ℕ → ℕ → InsnEmuCtx
i32_movt_t1 ctx rd imm =
    set_reg ctx rd (bit_or (bit_and (get_reg ctx rd) 0xffff) (u32 (imm * 2 ^ 16)))

-- `BITMASK(hi, lo)` and `BITMASK_MOVE`
abbrev pub bitmask_full : ℕ → ℕ
bitmask_full bit = u32 (2 ^ bit - 1)

abbrev pub bitmask : ℕ → ℕ → ℕ
bitmask hi lo = bit_and (bitmask_full (hi + 1)) (not32 (bitmask_full lo))

abbrev pub bitmask_sh : ℕ → ℕ → ℕ
bitmask_sh hi lo = bitmask hi lo / 2 ^ lo

abbrev pub bitmask_move : ℕ → ℕ → ℕ → ℕ → ℕ
bitmask_move dst src hi lo =
    bit_or (bit_and dst (not32 (bitmask hi lo))) (bit_and src (bitmask hi lo))

unfoldable pub i32_msr_t1 : InsnEmuCtx → ℕ → ℕ → ℕ → InsnEmuCtx
i32_msr_t1 ctx rn mask sysm =
    if bit_and sysm (bitmask_sh 7 3) == 0 && bit_and sysm 4 == 0
    then (let ctx' =
          if bit_and mask 1 == 0
          then ctx
          else set_psr ctx (bitmask_move (get_psr ctx) (get_reg ctx rn) 19 16) in
        if bit_and mask 2 == 0
        then ctx'
        else set_psr ctx' (bitmask_move (get_psr ctx') (get_reg ctx' rn) 31 27))
    else ctx

unfoldable pub i32_mvn_imm_t1 : InsnEmuCtx → ℕ → ℕ → Bool → InsnEmuCtx
i32_mvn_imm_t1 ctx rd imm s =
    let ctx' = set_reg ctx rd (not32 imm) in if s then set_mov_cond_code ctx' true imm else ctx'

unfoldable pub i16_mvn_reg_t1 : InsnEmuCtx → ℕ → ℕ → InsnEmuCtx
i16_mvn_reg_t1 ctx rd rm = set_reg_mov ctx rd (not32 (get_reg ctx rm)) true

-- The shift's count is passed as a `uint8_t`.
unfoldable pub i32_mvn_reg_t2 : InsnEmuCtx → ℕ → ℕ → ℕ → ℕ → Bool → Option InsnEmuCtx
i32_mvn_reg_t2 ctx rd rm imm shift_type s = do
  out ← barrel_shift (get_reg ctx rm) shift_type (u8 imm)
  some (set_reg_mov ctx rd (not32 out.value) s)

unfoldable pub i32_orn_reg_t1 : InsnEmuCtx → ℕ → ℕ → ℕ → ℕ → ℕ → Bool → Option InsnEmuCtx
i32_orn_reg_t1 ctx rd rn rm imm shift_type s = do
  out ← barrel_shift (get_reg ctx rm) shift_type imm
  some (set_reg_mov ctx rd (bit_or (get_reg ctx rn) (not32 out.value)) s)

unfoldable pub i32_orr_imm_t1 : InsnEmuCtx → ℕ → ℕ → ℕ → Bool → InsnEmuCtx
i32_orr_imm_t1 ctx rd rn imm s = set_reg_mov ctx rd (bit_or (get_reg ctx rn) imm) s

unfoldable pub i16_orr_reg_t1 : InsnEmuCtx → ℕ → ℕ → InsnEmuCtx
i16_orr_reg_t1 ctx rdn rm =
    let value = bit_or (get_reg ctx rdn) (get_reg ctx rm) in
    set_mov_cond_code (set_reg ctx rdn value) false value

unfoldable pub i32_orr_reg_t2 : InsnEmuCtx → ℕ → ℕ → ℕ → ℕ → ℕ → Bool → Option InsnEmuCtx
i32_orr_reg_t2 ctx rd rn rm imm shift_type s = do
  out ← barrel_shift (get_reg ctx rm) shift_type imm
  let value = if rn == 0x0f then out.value else bit_or (get_reg ctx rn) out.value
  some (set_reg_shifted ctx rd (record out { value = value }) s)

unfoldable pub i32_ror_imm_t1 : InsnEmuCtx → ℕ → ℕ → ℕ → Bool → Option InsnEmuCtx
i32_ror_imm_t1 ctx rd rm imm s = do
  out ← barrel_shift (get_reg ctx rm) type_ror imm
  some (set_reg_shifted ctx rd out s)

-- `(int8_t)(reg & 0xff)`, widened to 32 bits.
unfoldable pub i16_sxtb_t1 : InsnEmuCtx → ℕ → ℕ → InsnEmuCtx
i16_sxtb_t1 ctx rd rm =
    let low = bit_and (get_reg ctx rm) 0xff in
    set_reg ctx rd (if ltb low 0x80 then low else low + 0xffffff00)

unfoldable pub i32_tst_imm_t1 : InsnEmuCtx → ℕ → ℕ → InsnEmuCtx
i32_tst_imm_t1 ctx rn imm = set_mov_cond_code ctx true (bit_and (get_reg ctx rn) imm)

unfoldable pub i16_tst_reg_t1 : InsnEmuCtx → ℕ → ℕ → InsnEmuCtx
i16_tst_reg_t1 ctx rn rm = set_mov_cond_code ctx true (bit_and (get_reg ctx rn) (get_reg ctx rm))

unfoldable pub i32_ubfx_t1 : InsnEmuCtx → ℕ → ℕ → ℕ → ℕ → Option InsnEmuCtx
i32_ubfx_t1 ctx rd rn imm width = do
  shifted ← shr32 (get_reg ctx rn) imm
  one ← shl32 1 width
  some (set_reg ctx rd (bit_and shifted (sub32 one 1)))

unfoldable pub i16_uxtb_t1 : InsnEmuCtx → ℕ → ℕ → InsnEmuCtx
i16_uxtb_t1 ctx rd rm = set_reg ctx rd (bit_and (get_reg ctx rm) 0xff)

-- `rotate` other than 0 is reported as not implemented.
unfoldable pub i32_uxtb_t2 : InsnEmuCtx → ℕ → ℕ → ℕ → InsnEmuCtx
i32_uxtb_t2 ctx rd rm rotate =
    if rotate == 0 then set_reg ctx rd (bit_and (get_reg ctx rm) 0xff * 2 ^ (8 * rotate)) else ctx

unfoldable pub i16_uxth_t1 : InsnEmuCtx → ℕ → ℕ → InsnEmuCtx
i16_uxth_t1 ctx rd rm = set_reg ctx rd (bit_and (get_reg ctx rm) 0xffff)
