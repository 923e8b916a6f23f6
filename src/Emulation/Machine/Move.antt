-- ===== src/Emulation/Machine/Move.antt =====
-- impl_emulation.c: moves, extensions and tests, and the validity of the machine.
use libthumb2sim.Base.{
  ℕ, true, ◌≡◌, ◌+◌, ◌*◌, ◌^◌, ◌<◌, Bool, ◌&&◌, ◌==◌, ltb, if◌then◌else◌, bit_and, either, arith,
}
use libthumb2sim.Base.Bits.{bit_and-le_right}
use libthumb2sim.Base.OnSome.{OnSome}
use libthumb2sim.Cpu.{InsnEmuCtx, IsMachine, get_reg}
use libthumb2sim.Emulation.Move.{
  i16_mov_imm_t1, i32_mov_imm_t2, i32_mov_imm_t3, i16_mov_reg_t1, i16_mov_reg_t2, i32_movt_t1,
  i32_msr_t1, i32_mvn_imm_t1, i16_mvn_reg_t1, i32_mvn_reg_t2, i32_orn_reg_t1, i32_orr_imm_t1,
  i16_orr_reg_t1, i32_orr_reg_t2, i32_ror_imm_t1, i16_sxtb_t1, i32_tst_imm_t1, i16_tst_reg_t1,
  i32_ubfx_t1, i16_uxtb_t1, i32_uxtb_t2, i16_uxth_t1,
}
use libthumb2sim.Emulation.Machine.Steps.{steps, if-known}
use libthumb2sim.Emulation.Machine.State.{
  bit_or-word, bit_and-lt, set_reg-IsMachine, set_psr-IsMachine,
}
use libthumb2sim.Emulation.Move.{bitmask, bitmask_sh, bitmask_move}

bitmask_move-lt :
    (dst src hi lo : ℕ) → dst < 2 ^ 32 → src < 2 ^ 32 → bitmask_move dst src hi lo < 2 ^ 32
bitmask_move-lt dst src hi lo h k =
    bit_or-word _ _ (bit_and-lt dst _ h) (bit_and-lt src (bitmask hi lo) k)

uxtb_value-lt : (v rotate : ℕ) → (rotate == 0) ≡ true → bit_and v 0xff * 2 ^ (8 * rotate) < 2 ^ 32
uxtb_value-lt v rotate e =
    let z : rotate ≡ 0 = ground arith in rw z (omega (arith, bit_and-le_right v 0xff))

sign_extended-lt :
    (v : ℕ)
    → (if ltb (bit_and v 0xff) 0x80 then bit_and v 0xff else bit_and v 0xff + 0xffffff00) < 2 ^ 32
sign_extended-lt v = ground (arith, bit_and-le_right v 0xff)

module _ {ctx : InsnEmuCtx} (valid : IsMachine ctx) where
  pub i16_mov_imm_t1-IsMachine : (rd imm : ℕ) → imm < 2 ^ 32 → IsMachine (i16_mov_imm_t1 ctx rd imm)
  unfolding i16_mov_imm_t1
  i16_mov_imm_t1-IsMachine rd imm h0 = search steps depth 9 fits 4000

  pub i32_mov_imm_t2-IsMachine :
      (rd imm : ℕ) (s : Bool) → imm < 2 ^ 32 → IsMachine (i32_mov_imm_t2 ctx rd imm s)
  unfolding i32_mov_imm_t2
  i32_mov_imm_t2-IsMachine rd imm s h0 = search steps depth 9 fits 4000

  pub i32_mov_imm_t3-IsMachine : (rd imm : ℕ) → imm < 2 ^ 32 → IsMachine (i32_mov_imm_t3 ctx rd imm)
  unfolding i32_mov_imm_t3
  i32_mov_imm_t3-IsMachine rd imm h0 = search steps depth 9 fits 4000

  pub i16_mov_reg_t1-IsMachine : (rd rm : ℕ) → IsMachine (i16_mov_reg_t1 ctx rd rm)
  unfolding i16_mov_reg_t1
  i16_mov_reg_t1-IsMachine rd rm = search steps depth 9 fits 4000

  pub i16_mov_reg_t2-IsMachine : (rd rm : ℕ) → IsMachine (i16_mov_reg_t2 ctx rd rm)
  unfolding i16_mov_reg_t2
  i16_mov_reg_t2-IsMachine rd rm = search steps depth 9 fits 4000

  pub i32_movt_t1-IsMachine : (rd imm : ℕ) → IsMachine (i32_movt_t1 ctx rd imm)
  unfolding i32_movt_t1
  i32_movt_t1-IsMachine rd imm = search steps depth 9 fits 4000

  pub i32_msr_t1-IsMachine : (rn mask sysm : ℕ) → IsMachine (i32_msr_t1 ctx rn mask sysm)
  unfolding i32_msr_t1
  i32_msr_t1-IsMachine rn mask sysm =
      let m' = either IsMachine (bit_and mask 1 == 0) valid (
        set_psr-IsMachine valid _
          (bitmask_move-lt _ _ 19 16 valid.psr_bound (valid.reg_bounds rn))) in
      let m'' =
        either IsMachine (bit_and mask 2 == 0) m'
          (set_psr-IsMachine m' _ (bitmask_move-lt _ _ 31 27 m'.psr_bound (m'.reg_bounds rn))) in
      either IsMachine (bit_and sysm (bitmask_sh 7 3) == 0 && bit_and sysm 4 == 0) m'' valid

  pub i32_mvn_imm_t1-IsMachine : (rd imm : ℕ) (s : Bool) → IsMachine (i32_mvn_imm_t1 ctx rd imm s)
  unfolding i32_mvn_imm_t1
  i32_mvn_imm_t1-IsMachine rd imm s = search steps depth 9 fits 4000

  pub i16_mvn_reg_t1-IsMachine : (rd rm : ℕ) → IsMachine (i16_mvn_reg_t1 ctx rd rm)
  unfolding i16_mvn_reg_t1
  i16_mvn_reg_t1-IsMachine rd rm = search steps depth 9 fits 4000

  pub i32_mvn_reg_t2-IsMachine :
      (rd rm imm shift_type : ℕ) (s : Bool)
      → OnSome IsMachine (i32_mvn_reg_t2 ctx rd rm imm shift_type s)
  unfolding i32_mvn_reg_t2
  i32_mvn_reg_t2-IsMachine rd rm imm shift_type s = search steps depth 9 fits 4000

  pub i32_orn_reg_t1-IsMachine :
      (rd rn rm imm shift_type : ℕ) (s : Bool)
      → OnSome IsMachine (i32_orn_reg_t1 ctx rd rn rm imm shift_type s)
  unfolding i32_orn_reg_t1
  i32_orn_reg_t1-IsMachine rd rn rm imm shift_type s = search steps depth 9 fits 4000

  pub i32_orr_imm_t1-IsMachine :
      (rd rn imm : ℕ) (s : Bool) → imm < 2 ^ 32 → IsMachine (i32_orr_imm_t1 ctx rd rn imm s)
  unfolding i32_orr_imm_t1
  i32_orr_imm_t1-IsMachine rd rn imm s h0 = search steps depth 9 fits 4000

  pub i16_orr_reg_t1-IsMachine : (rdn rm : ℕ) → IsMachine (i16_orr_reg_t1 ctx rdn rm)
  unfolding i16_orr_reg_t1
  i16_orr_reg_t1-IsMachine rdn rm = search steps depth 9 fits 4000

  pub i32_orr_reg_t2-IsMachine :
      (rd rn rm imm shift_type : ℕ) (s : Bool)
      → OnSome IsMachine (i32_orr_reg_t2 ctx rd rn rm imm shift_type s)
  unfolding i32_orr_reg_t2
  i32_orr_reg_t2-IsMachine rd rn rm imm shift_type s = search steps depth 9 fits 4000

  pub i32_ror_imm_t1-IsMachine :
      (rd rm imm : ℕ) (s : Bool) → OnSome IsMachine (i32_ror_imm_t1 ctx rd rm imm s)
  unfolding i32_ror_imm_t1
  i32_ror_imm_t1-IsMachine rd rm imm s = search steps depth 9 fits 4000

  pub i16_sxtb_t1-IsMachine : (rd rm : ℕ) → IsMachine (i16_sxtb_t1 ctx rd rm)
  unfolding i16_sxtb_t1
  i16_sxtb_t1-IsMachine rd rm = set_reg-IsMachine valid rd _ (sign_extended-lt (get_reg ctx rm))

  pub i32_tst_imm_t1-IsMachine : (rn imm : ℕ) → IsMachine (i32_tst_imm_t1 ctx rn imm)
  unfolding i32_tst_imm_t1
  i32_tst_imm_t1-IsMachine rn imm = search steps depth 9 fits 4000

  pub i16_tst_reg_t1-IsMachine : (rn rm : ℕ) → IsMachine (i16_tst_reg_t1 ctx rn rm)
  unfolding i16_tst_reg_t1
  i16_tst_reg_t1-IsMachine rn rm = search steps depth 9 fits 4000

  pub i32_ubfx_t1-IsMachine :
      (rd rn imm width : ℕ) → OnSome IsMachine (i32_ubfx_t1 ctx rd rn imm width)
  unfolding i32_ubfx_t1
  i32_ubfx_t1-IsMachine rd rn imm width = search steps depth 9 fits 4000

  pub i16_uxtb_t1-IsMachine : (rd rm : ℕ) → IsMachine (i16_uxtb_t1 ctx rd rm)
  unfolding i16_uxtb_t1
  i16_uxtb_t1-IsMachine rd rm = search steps depth 9 fits 4000

  pub i32_uxtb_t2-IsMachine : (rd rm rotate : ℕ) → IsMachine (i32_uxtb_t2 ctx rd rm rotate)
  unfolding i32_uxtb_t2
  i32_uxtb_t2-IsMachine rd rm rotate =
      if-known (rotate == 0) _ _
        (λ e. set_reg-IsMachine valid rd _ (uxtb_value-lt (get_reg ctx rm) rotate e)) valid

  pub i16_uxth_t1-IsMachine : (rd rm : ℕ) → IsMachine (i16_uxth_t1 ctx rd rm)
  unfolding i16_uxth_t1
  i16_uxth_t1-IsMachine rd rm = search steps depth 9 fits 4000
