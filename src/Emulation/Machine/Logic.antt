-- ===== src/Emulation/Machine/Logic.antt =====
-- impl_emulation.c: logic and shifts, and the validity of the machine.
use libthumb2sim.Base.{
  ℕ, zero, suc, ◌+◌, ◌/◌, ◌^◌, ◌<◌, ◌≤◌, Bool, Option, ◌>>=◌, ◌==◌, either, arith,
}
use libthumb2sim.Base.OnSome.{OnSome, defined, OnSome-bind}
use libthumb2sim.Cpu.{InsnEmuCtx, IsMachine, get_reg}
use libthumb2sim.Emulation.Logic.{
  i32_and_imm_t1, i16_and_reg_t1, i32_and_reg_t2, i16_asr_imm_t1, i32_bfi_t1, i32_bic_imm_t1,
  i32_bic_reg_t2, i32_clz_t1, i32_eor_imm_t1, i16_eor_reg_t1, i32_eor_reg_t2, i16_lsl_imm_t1,
  i32_lsl_imm_t2, i16_lsl_reg_t1, i32_lsl_reg_t2, i16_lsr_imm_t1, i32_lsr_imm_t2, i16_lsr_reg_t1,
  i32_lsr_reg_t2,
}
use libthumb2sim.Emulation.Machine.Steps.{steps}
use libthumb2sim.Emulation.Machine.State.{set_reg-IsMachine}
use libthumb2sim.Emulation.Machine.Partial.{bit_below-OnSome}
use libthumb2sim.Emulation.Logic.{clz_rounds, carry_of_lsr}
use libthumb2sim.Emulation.Shift.{bit_below}

clz_rounds_le : (left i mask value : ℕ) → left + i ≤ 32 → clz_rounds left i mask value ≤ 32
unfolding clz_rounds
clz_rounds_le zero i mask value h = omega arith
clz_rounds_le (suc left) i mask value h =
    ground (arith, clz_rounds_le left (i + 1) (mask / 2) value (omega arith))

carry_of_lsr-bind :
    (value count : ℕ) (f : Bool → Option InsnEmuCtx)
    → ((b : Bool) → OnSome IsMachine (f b))
    → OnSome IsMachine (carry_of_lsr value count >>= f)
carry_of_lsr-bind value count f g =
    OnSome-bind (carry_of_lsr value count) f
      (either (OnSome (λ (b : Bool). Unit)) (count == 0) (defined tt)
        (OnSome-bind (bit_below count) _ (bit_below-OnSome count) (λ bit h. defined tt)))
      (λ b h. g b)

module _ {ctx : InsnEmuCtx} (valid : IsMachine ctx) where
  pub i32_and_imm_t1-IsMachine :
      (rd rn imm : ℕ) (s : Bool) → IsMachine (i32_and_imm_t1 ctx rd rn imm s)
  unfolding i32_and_imm_t1
  i32_and_imm_t1-IsMachine rd rn imm s = search steps depth 9 fits 4000

  pub i16_and_reg_t1-IsMachine : (rdn rm : ℕ) → IsMachine (i16_and_reg_t1 ctx rdn rm)
  unfolding i16_and_reg_t1
  i16_and_reg_t1-IsMachine rdn rm = search steps depth 9 fits 4000

  pub i32_and_reg_t2-IsMachine :
      (rd rn rm imm shift_type : ℕ) (s : Bool)
      → OnSome IsMachine (i32_and_reg_t2 ctx rd rn rm imm shift_type s)
  unfolding i32_and_reg_t2
  i32_and_reg_t2-IsMachine rd rn rm imm shift_type s = search steps depth 9 fits 4000

  pub i16_asr_imm_t1-IsMachine : (rd rm imm : ℕ) → OnSome IsMachine (i16_asr_imm_t1 ctx rd rm imm)
  unfolding i16_asr_imm_t1
  i16_asr_imm_t1-IsMachine rd rm imm = search steps depth 9 fits 4000

  pub i32_bfi_t1-IsMachine : (rd rn imm msb : ℕ) → OnSome IsMachine (i32_bfi_t1 ctx rd rn imm msb)
  unfolding i32_bfi_t1
  i32_bfi_t1-IsMachine rd rn imm msb = search steps depth 9 fits 4000

  pub i32_bic_imm_t1-IsMachine :
      (rd rn imm : ℕ) (s : Bool) → IsMachine (i32_bic_imm_t1 ctx rd rn imm s)
  unfolding i32_bic_imm_t1
  i32_bic_imm_t1-IsMachine rd rn imm s = search steps depth 9 fits 4000

  pub i32_bic_reg_t2-IsMachine :
      (rd rn rm imm shift_type : ℕ) (s : Bool)
      → OnSome IsMachine (i32_bic_reg_t2 ctx rd rn rm imm shift_type s)
  unfolding i32_bic_reg_t2
  i32_bic_reg_t2-IsMachine rd rn rm imm shift_type s = search steps depth 9 fits 4000

  pub i32_clz_t1-IsMachine : (rd rm rmx : ℕ) → IsMachine (i32_clz_t1 ctx rd rm rmx)
  unfolding i32_clz_t1
  i32_clz_t1-IsMachine rd rm rmx =
      set_reg-IsMachine valid rd _
        (omega (arith, clz_rounds_le 32 0 0x80000000 (get_reg ctx rm) (omega arith)))

  pub i32_eor_imm_t1-IsMachine :
      (rd rn imm : ℕ) (s : Bool) → imm < 2 ^ 32 → IsMachine (i32_eor_imm_t1 ctx rd rn imm s)
  unfolding i32_eor_imm_t1
  i32_eor_imm_t1-IsMachine rd rn imm s h0 = search steps depth 9 fits 4000

  pub i16_eor_reg_t1-IsMachine : (rdn rm : ℕ) → IsMachine (i16_eor_reg_t1 ctx rdn rm)
  unfolding i16_eor_reg_t1
  i16_eor_reg_t1-IsMachine rdn rm = search steps depth 9 fits 4000

  pub i32_eor_reg_t2-IsMachine :
      (rd rn rm imm shift_type : ℕ) (s : Bool)
      → OnSome IsMachine (i32_eor_reg_t2 ctx rd rn rm imm shift_type s)
  unfolding i32_eor_reg_t2
  i32_eor_reg_t2-IsMachine rd rn rm imm shift_type s = search steps depth 9 fits 4000

  pub i16_lsl_imm_t1-IsMachine : (rd rm imm : ℕ) → OnSome IsMachine (i16_lsl_imm_t1 ctx rd rm imm)
  unfolding i16_lsl_imm_t1
  i16_lsl_imm_t1-IsMachine rd rm imm = search steps depth 9 fits 4000

  pub i32_lsl_imm_t2-IsMachine :
      (rd rm imm : ℕ) (s : Bool) → OnSome IsMachine (i32_lsl_imm_t2 ctx rd rm imm s)
  unfolding i32_lsl_imm_t2
  i32_lsl_imm_t2-IsMachine rd rm imm s = search steps depth 9 fits 4000

  pub i16_lsl_reg_t1-IsMachine : (rdn rm : ℕ) → OnSome IsMachine (i16_lsl_reg_t1 ctx rdn rm)
  unfolding i16_lsl_reg_t1
  i16_lsl_reg_t1-IsMachine rdn rm = search steps depth 9 fits 4000

  pub i32_lsl_reg_t2-IsMachine :
      (rd rn rm : ℕ) (s : Bool) → OnSome IsMachine (i32_lsl_reg_t2 ctx rd rn rm s)
  unfolding i32_lsl_reg_t2
  i32_lsl_reg_t2-IsMachine rd rn rm s = search steps depth 9 fits 4000

  pub i16_lsr_imm_t1-IsMachine : (rd rm imm : ℕ) → OnSome IsMachine (i16_lsr_imm_t1 ctx rd rm imm)
  unfolding i16_lsr_imm_t1
  i16_lsr_imm_t1-IsMachine rd rm imm = search steps depth 9 fits 4000

  pub i32_lsr_imm_t2-IsMachine :
      (rd rm imm : ℕ) (s : Bool) → OnSome IsMachine (i32_lsr_imm_t2 ctx rd rm imm s)
  unfolding i32_lsr_imm_t2
  i32_lsr_imm_t2-IsMachine rd rm imm s = search steps depth 9 fits 4000

  pub i16_lsr_reg_t1-IsMachine : (rdn rm : ℕ) → OnSome IsMachine (i16_lsr_reg_t1 ctx rdn rm)
  unfolding i16_lsr_reg_t1
  i16_lsr_reg_t1-IsMachine rdn rm = search (steps, carry_of_lsr-bind) depth 9 fits 4000

  pub i32_lsr_reg_t2-IsMachine :
      (rd rn rm : ℕ) (s : Bool) → OnSome IsMachine (i32_lsr_reg_t2 ctx rd rn rm s)
  unfolding i32_lsr_reg_t2
  i32_lsr_reg_t2-IsMachine rd rn rm s = search steps depth 9 fits 4000
