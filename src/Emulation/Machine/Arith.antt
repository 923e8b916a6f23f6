-- ===== src/Emulation/Machine/Arith.antt =====
-- impl_emulation.c: arithmetic, and the validity of the machine.
use libthumb2sim.Base.{ℕ, ◌^◌, ◌<◌, Bool, ◌&&◌, Option, ◌>>=◌, ◌==◌, sub32, either, arith}
use libthumb2sim.Base.OnSome.{OnSome, defined, undefined, OnSome-bind}
use libthumb2sim.Cpu.{InsnEmuCtx, IsMachine}
use libthumb2sim.Emulation.Arith.{
  i32_adc_imm_t1, i32_adc_reg_t2, i16_add_spi_t1, i16_add_spi_t2, i32_add_spi_t3, i16_add_spr_t1,
  i32_add_spr_t3, i16_add_imm_t1, i16_add_imm_t2, i32_add_imm_t3, i16_add_reg_t1, i16_add_reg_t2,
  i32_add_reg_t3, i16_cmp_imm_t1, i32_cmp_imm_t2, i16_cmp_reg_t1, i16_cmp_reg_t2, i32_mul_t2,
  i32_umull_t1, i32_sdiv_t1, i32_rsb_imm_t2, i32_rsb_reg_t1, i16_sub_spimm_t1, i16_sub_imm_t1,
  i16_sub_imm_t2, i32_sub_imm_t3, i32_sub_imm_t4, i16_sub_reg_t1, i32_sub_reg_t2,
}
use libthumb2sim.Emulation.Machine.Steps.{steps}
use libthumb2sim.Emulation.Machine.State.{IsWord, quotient-lt, u32-lt}
use libthumb2sim.Emulation.Arith.{sdiv32}
use libthumb2sim.Emulation.Flags.{is_negative}

zero-lt : 0 < 2 ^ 32
zero-lt = omega arith

sdiv32-OnSome : (a b : ℕ) → a < 2 ^ 32 → OnSome IsWord (sdiv32 a b)
unfolding sdiv32
sdiv32-OnSome a b h = either (OnSome IsWord) (a == 0x80000000 && b == 0xffffffff) undefined (
    either (OnSome IsWord) (is_negative a)
      (either (OnSome IsWord) (is_negative b)
        (defined (quotient-lt (sub32 0 a) (sub32 0 b) (u32-lt _))) (defined (u32-lt _)))
      (either (OnSome IsWord) (is_negative b) (defined (u32-lt _)) (defined (quotient-lt a b h))))

sdiv32-bind :
    (a b : ℕ) (f : ℕ → Option InsnEmuCtx)
    → a < 2 ^ 32
    → ((v : ℕ) → v < 2 ^ 32 → OnSome IsMachine (f v))
    → OnSome IsMachine (sdiv32 a b >>= f)
sdiv32-bind a b f h g = OnSome-bind (sdiv32 a b) f (sdiv32-OnSome a b h) g

module _ {ctx : InsnEmuCtx} (valid : IsMachine ctx) where
  pub i32_adc_imm_t1-IsMachine :
      (rd rn imm : ℕ) (s : Bool) → IsMachine (i32_adc_imm_t1 ctx rd rn imm s)
  unfolding i32_adc_imm_t1
  i32_adc_imm_t1-IsMachine rd rn imm s = search steps depth 9 fits 4000

  pub i32_adc_reg_t2-IsMachine :
      (rd rn rm imm shift_type : ℕ) (s : Bool)
      → OnSome IsMachine (i32_adc_reg_t2 ctx rd rn rm imm shift_type s)
  unfolding i32_adc_reg_t2
  i32_adc_reg_t2-IsMachine rd rn rm imm shift_type s = search steps depth 9 fits 4000

  pub i16_add_spi_t1-IsMachine : (rd imm : ℕ) → IsMachine (i16_add_spi_t1 ctx rd imm)
  unfolding i16_add_spi_t1
  i16_add_spi_t1-IsMachine rd imm = search steps depth 9 fits 4000

  pub i16_add_spi_t2-IsMachine : (imm : ℕ) → IsMachine (i16_add_spi_t2 ctx imm)
  unfolding i16_add_spi_t2
  i16_add_spi_t2-IsMachine imm = search steps depth 9 fits 4000

  pub i32_add_spi_t3-IsMachine : (rd imm : ℕ) (s : Bool) → IsMachine (i32_add_spi_t3 ctx rd imm s)
  unfolding i32_add_spi_t3
  i32_add_spi_t3-IsMachine rd imm s = search steps depth 9 fits 4000

  pub i16_add_spr_t1-IsMachine : (rdm : ℕ) → IsMachine (i16_add_spr_t1 ctx rdm)
  unfolding i16_add_spr_t1
  i16_add_spr_t1-IsMachine rdm = search steps depth 9 fits 4000

  pub i32_add_spr_t3-IsMachine :
      (rd rm imm shift_type : ℕ) (s : Bool)
      → OnSome IsMachine (i32_add_spr_t3 ctx rd rm imm shift_type s)
  unfolding i32_add_spr_t3
  i32_add_spr_t3-IsMachine rd rm imm shift_type s = search steps depth 9 fits 4000

  pub i16_add_imm_t1-IsMachine : (rd rn imm : ℕ) → IsMachine (i16_add_imm_t1 ctx rd rn imm)
  unfolding i16_add_imm_t1
  i16_add_imm_t1-IsMachine rd rn imm = search steps depth 9 fits 4000

  pub i16_add_imm_t2-IsMachine : (rdn imm : ℕ) → IsMachine (i16_add_imm_t2 ctx rdn imm)
  unfolding i16_add_imm_t2
  i16_add_imm_t2-IsMachine rdn imm = search steps depth 9 fits 4000

  pub i32_add_imm_t3-IsMachine :
      (rd rn imm : ℕ) (s : Bool) → IsMachine (i32_add_imm_t3 ctx rd rn imm s)
  unfolding i32_add_imm_t3
  i32_add_imm_t3-IsMachine rd rn imm s = search steps depth 9 fits 4000

  pub i16_add_reg_t1-IsMachine : (rd rn rm : ℕ) → IsMachine (i16_add_reg_t1 ctx rd rn rm)
  unfolding i16_add_reg_t1
  i16_add_reg_t1-IsMachine rd rn rm = search steps depth 9 fits 4000

  pub i16_add_reg_t2-IsMachine : (rdn rm : ℕ) → IsMachine (i16_add_reg_t2 ctx rdn rm)
  unfolding i16_add_reg_t2
  i16_add_reg_t2-IsMachine rdn rm = search steps depth 9 fits 4000

  pub i32_add_reg_t3-IsMachine :
      (rd rn rm imm shift_type : ℕ) (s : Bool)
      → OnSome IsMachine (i32_add_reg_t3 ctx rd rn rm imm shift_type s)
  unfolding i32_add_reg_t3
  i32_add_reg_t3-IsMachine rd rn rm imm shift_type s = search steps depth 9 fits 4000

  pub i16_cmp_imm_t1-IsMachine : (rn imm : ℕ) → OnSome IsMachine (i16_cmp_imm_t1 ctx rn imm)
  unfolding i16_cmp_imm_t1
  i16_cmp_imm_t1-IsMachine rn imm = search steps depth 9 fits 4000

  pub i32_cmp_imm_t2-IsMachine : (rn imm : ℕ) → OnSome IsMachine (i32_cmp_imm_t2 ctx rn imm)
  unfolding i32_cmp_imm_t2
  i32_cmp_imm_t2-IsMachine rn imm = search steps depth 9 fits 4000

  pub i16_cmp_reg_t1-IsMachine : (rn rm : ℕ) → OnSome IsMachine (i16_cmp_reg_t1 ctx rn rm)
  unfolding i16_cmp_reg_t1
  i16_cmp_reg_t1-IsMachine rn rm = search steps depth 9 fits 4000

  pub i16_cmp_reg_t2-IsMachine : (rn rm : ℕ) → OnSome IsMachine (i16_cmp_reg_t2 ctx rn rm)
  unfolding i16_cmp_reg_t2
  i16_cmp_reg_t2-IsMachine rn rm = search steps depth 9 fits 4000

  pub i32_mul_t2-IsMachine : (rd rn rm : ℕ) → IsMachine (i32_mul_t2 ctx rd rn rm)
  unfolding i32_mul_t2
  i32_mul_t2-IsMachine rd rn rm = search steps depth 9 fits 4000

  pub i32_umull_t1-IsMachine :
      (rn rm rd_lo rd_hi : ℕ) → IsMachine (i32_umull_t1 ctx rn rm rd_lo rd_hi)
  unfolding i32_umull_t1
  i32_umull_t1-IsMachine rn rm rd_lo rd_hi = search steps depth 9 fits 4000

  pub i32_sdiv_t1-IsMachine : (rd rn rm : ℕ) → OnSome IsMachine (i32_sdiv_t1 ctx rd rn rm)
  unfolding i32_sdiv_t1
  i32_sdiv_t1-IsMachine rd rn rm = search (steps, sdiv32-bind, zero-lt) depth 9 fits 4000

  pub i32_rsb_imm_t2-IsMachine :
      (rd rn imm : ℕ) (s : Bool) → OnSome IsMachine (i32_rsb_imm_t2 ctx rd rn imm s)
  unfolding i32_rsb_imm_t2
  i32_rsb_imm_t2-IsMachine rd rn imm s = search steps depth 9 fits 4000

  pub i32_rsb_reg_t1-IsMachine :
      (rd rn rm imm shift_type : ℕ) (s : Bool)
      → OnSome IsMachine (i32_rsb_reg_t1 ctx rd rn rm imm shift_type s)
  unfolding i32_rsb_reg_t1
  i32_rsb_reg_t1-IsMachine rd rn rm imm shift_type s = search steps depth 9 fits 4000

  pub i16_sub_spimm_t1-IsMachine : (imm : ℕ) → IsMachine (i16_sub_spimm_t1 ctx imm)
  unfolding i16_sub_spimm_t1
  i16_sub_spimm_t1-IsMachine imm = search steps depth 9 fits 4000

  pub i16_sub_imm_t1-IsMachine : (rd rn imm : ℕ) → OnSome IsMachine (i16_sub_imm_t1 ctx rd rn imm)
  unfolding i16_sub_imm_t1
  i16_sub_imm_t1-IsMachine rd rn imm = search steps depth 9 fits 4000

  pub i16_sub_imm_t2-IsMachine : (rdn imm : ℕ) → OnSome IsMachine (i16_sub_imm_t2 ctx rdn imm)
  unfolding i16_sub_imm_t2
  i16_sub_imm_t2-IsMachine rdn imm = search steps depth 9 fits 4000

  pub i32_sub_imm_t3-IsMachine :
      (rd rn imm : ℕ) (s : Bool) → OnSome IsMachine (i32_sub_imm_t3 ctx rd rn imm s)
  unfolding i32_sub_imm_t3
  i32_sub_imm_t3-IsMachine rd rn imm s = search steps depth 9 fits 4000

  pub i32_sub_imm_t4-IsMachine : (rd rn imm : ℕ) → OnSome IsMachine (i32_sub_imm_t4 ctx rd rn imm)
  unfolding i32_sub_imm_t4
  i32_sub_imm_t4-IsMachine rd rn imm = search steps depth 9 fits 4000

  pub i16_sub_reg_t1-IsMachine : (rd rn rm : ℕ) → OnSome IsMachine (i16_sub_reg_t1 ctx rd rn rm)
  unfolding i16_sub_reg_t1
  i16_sub_reg_t1-IsMachine rd rn rm = search steps depth 9 fits 4000

  pub i32_sub_reg_t2-IsMachine :
      (rd rn rm imm shift_type : ℕ) (s : Bool)
      → OnSome IsMachine (i32_sub_reg_t2 ctx rd rn rm imm shift_type s)
  unfolding i32_sub_reg_t2
  i32_sub_reg_t2-IsMachine rd rn rm imm shift_type s = search steps depth 9 fits 4000
