-- ===== src/Emulation/Machine/Memory.antt =====
-- impl_emulation.c: loads and stores, and the validity of the machine.
use libthumb2sim.Base.{ℕ, Bool, ◌==◌, either}
use libthumb2sim.Base.OnSome.{OnSome, defined, OnSome-bind}
use libthumb2sim.Cpu.{InsnEmuCtx, IsMachine}
use libthumb2sim.Emulation.Memory.{
  i16_ldr_imm_t1, i16_ldr_imm_t2, i32_ldr_imm_t3, i32_ldr_imm_t4, i16_ldr_lit_t1, i32_ldr_lit_t2,
  i16_ldr_reg_t1, i32_ldr_reg_t2, i16_ldrb_imm_t1, i32_ldrb_imm_t2, i32_ldrb_imm_t3,
  i16_ldrb_reg_t1, i32_ldrb_reg_t2, i32_ldrd_imm_t1, i16_ldrh_imm_t1, i32_ldrh_imm_t2,
  i16_str_imm_t1, i16_str_imm_t2, i32_str_imm_t3, i32_str_imm_t4, i16_str_reg_t1, i32_str_reg_t2,
  i16_strb_imm_t1, i32_strb_imm_t2, i32_strb_imm_t3, i16_strb_reg_t1, i32_strb_reg_t2,
  i32_strd_imm_t1, i16_strh_imm_t1, i32_strh_imm_t2,
}
use libthumb2sim.Emulation.Machine.Steps.{steps, read8-bind}
use libthumb2sim.Emulation.Machine.State.{IsWord, set_reg-IsMachine}
use libthumb2sim.Emulation.Machine.Partial.{barrel_shift-bind}
use libthumb2sim.Emulation.Shift.{type_lsl}

module _ {ctx : InsnEmuCtx} (valid : IsMachine ctx) where
  pub i16_ldr_imm_t1-IsMachine : (rt rn imm : ℕ) → OnSome IsMachine (i16_ldr_imm_t1 ctx rt rn imm)
  unfolding i16_ldr_imm_t1
  i16_ldr_imm_t1-IsMachine rt rn imm = search steps depth 9 fits 4000

  pub i16_ldr_imm_t2-IsMachine : (rt imm : ℕ) → OnSome IsMachine (i16_ldr_imm_t2 ctx rt imm)
  unfolding i16_ldr_imm_t2
  i16_ldr_imm_t2-IsMachine rt imm = search steps depth 9 fits 4000

  pub i32_ldr_imm_t3-IsMachine : (rt rn imm : ℕ) → OnSome IsMachine (i32_ldr_imm_t3 ctx rt rn imm)
  unfolding i32_ldr_imm_t3
  i32_ldr_imm_t3-IsMachine rt rn imm = search steps depth 9 fits 4000

  pub i32_ldr_imm_t4-IsMachine :
      (rt rn imm : ℕ) (p u w : Bool) → OnSome IsMachine (i32_ldr_imm_t4 ctx rt rn imm p u w)
  unfolding i32_ldr_imm_t4
  i32_ldr_imm_t4-IsMachine rt rn imm p u w = search steps depth 9 fits 4000

  pub i16_ldr_lit_t1-IsMachine : (rt imm : ℕ) → OnSome IsMachine (i16_ldr_lit_t1 ctx rt imm)
  unfolding i16_ldr_lit_t1
  i16_ldr_lit_t1-IsMachine rt imm = search steps depth 9 fits 4000

  pub i32_ldr_lit_t2-IsMachine :
      (rt imm : ℕ) (u : Bool) → OnSome IsMachine (i32_ldr_lit_t2 ctx rt imm u)
  unfolding i32_ldr_lit_t2
  i32_ldr_lit_t2-IsMachine rt imm u = search steps depth 9 fits 4000

  pub i16_ldr_reg_t1-IsMachine : (rt rn rm : ℕ) → OnSome IsMachine (i16_ldr_reg_t1 ctx rt rn rm)
  unfolding i16_ldr_reg_t1
  i16_ldr_reg_t1-IsMachine rt rn rm = search steps depth 9 fits 4000

  pub i32_ldr_reg_t2-IsMachine :
      (rt rn rm imm : ℕ) → OnSome IsMachine (i32_ldr_reg_t2 ctx rt rn rm imm)
  unfolding i32_ldr_reg_t2
  i32_ldr_reg_t2-IsMachine rt rn rm imm = search steps depth 9 fits 4000

  pub i16_ldrb_imm_t1-IsMachine : (rt rn imm : ℕ) → OnSome IsMachine (i16_ldrb_imm_t1 ctx rt rn imm)
  unfolding i16_ldrb_imm_t1
  i16_ldrb_imm_t1-IsMachine rt rn imm = search steps depth 9 fits 4000

  pub i32_ldrb_imm_t2-IsMachine : (rt rn imm : ℕ) → OnSome IsMachine (i32_ldrb_imm_t2 ctx rt rn imm)
  unfolding i32_ldrb_imm_t2
  i32_ldrb_imm_t2-IsMachine rt rn imm = search steps depth 9 fits 4000

  pub i32_ldrb_imm_t3-IsMachine :
      (rt rn imm : ℕ) (p u w : Bool) → OnSome IsMachine (i32_ldrb_imm_t3 ctx rt rn imm p u w)
  unfolding i32_ldrb_imm_t3
  i32_ldrb_imm_t3-IsMachine rt rn imm p u w = search steps depth 9 fits 4000

  pub i16_ldrb_reg_t1-IsMachine : (rt rn rm : ℕ) → OnSome IsMachine (i16_ldrb_reg_t1 ctx rt rn rm)
  unfolding i16_ldrb_reg_t1
  i16_ldrb_reg_t1-IsMachine rt rn rm = search steps depth 9 fits 4000

  pub i32_ldrb_reg_t2-IsMachine :
      (rt rn rm imm : ℕ) → OnSome IsMachine (i32_ldrb_reg_t2 ctx rt rn rm imm)
  unfolding i32_ldrb_reg_t2
  i32_ldrb_reg_t2-IsMachine rt rn rm imm = read8-bind valid _ _ (λ v h.
      OnSome-bind _ _
        (either (OnSome IsWord) (imm == 0) (defined h)
          (barrel_shift-bind v type_lsl imm _ h (λ out k. defined k)))
        (λ r k. defined (set_reg-IsMachine valid rt r k)))

  pub i32_ldrd_imm_t1-IsMachine :
      (rt rn rtx imm : ℕ) (p u w : Bool)
      → OnSome IsMachine (i32_ldrd_imm_t1 ctx rt rn rtx imm p u w)
  unfolding i32_ldrd_imm_t1
  i32_ldrd_imm_t1-IsMachine rt rn rtx imm p u w = search steps depth 9 fits 4000

  pub i16_ldrh_imm_t1-IsMachine : (rt rn imm : ℕ) → OnSome IsMachine (i16_ldrh_imm_t1 ctx rt rn imm)
  unfolding i16_ldrh_imm_t1
  i16_ldrh_imm_t1-IsMachine rt rn imm = search steps depth 9 fits 4000

  pub i32_ldrh_imm_t2-IsMachine : (rt rn imm : ℕ) → OnSome IsMachine (i32_ldrh_imm_t2 ctx rt rn imm)
  unfolding i32_ldrh_imm_t2
  i32_ldrh_imm_t2-IsMachine rt rn imm = search steps depth 9 fits 4000

  pub i16_str_imm_t1-IsMachine : (rt rn imm : ℕ) → OnSome IsMachine (i16_str_imm_t1 ctx rt rn imm)
  unfolding i16_str_imm_t1
  i16_str_imm_t1-IsMachine rt rn imm = search steps depth 9 fits 4000

  pub i16_str_imm_t2-IsMachine : (rt imm : ℕ) → OnSome IsMachine (i16_str_imm_t2 ctx rt imm)
  unfolding i16_str_imm_t2
  i16_str_imm_t2-IsMachine rt imm = search steps depth 9 fits 4000

  pub i32_str_imm_t3-IsMachine : (rt rn imm : ℕ) → OnSome IsMachine (i32_str_imm_t3 ctx rt rn imm)
  unfolding i32_str_imm_t3
  i32_str_imm_t3-IsMachine rt rn imm = search steps depth 9 fits 4000

  pub i32_str_imm_t4-IsMachine :
      (rt rn imm : ℕ) (p u w : Bool) → OnSome IsMachine (i32_str_imm_t4 ctx rt rn imm p u w)
  unfolding i32_str_imm_t4
  i32_str_imm_t4-IsMachine rt rn imm p u w = search steps depth 9 fits 4000

  pub i16_str_reg_t1-IsMachine : (rt rn rm : ℕ) → OnSome IsMachine (i16_str_reg_t1 ctx rt rn rm)
  unfolding i16_str_reg_t1
  i16_str_reg_t1-IsMachine rt rn rm = search steps depth 9 fits 4000

  pub i32_str_reg_t2-IsMachine :
      (rt rn rm imm : ℕ) → OnSome IsMachine (i32_str_reg_t2 ctx rt rn rm imm)
  unfolding i32_str_reg_t2
  i32_str_reg_t2-IsMachine rt rn rm imm = search steps depth 9 fits 4000

  pub i16_strb_imm_t1-IsMachine : (rt rn imm : ℕ) → OnSome IsMachine (i16_strb_imm_t1 ctx rt rn imm)
  unfolding i16_strb_imm_t1
  i16_strb_imm_t1-IsMachine rt rn imm = search steps depth 9 fits 4000

  pub i32_strb_imm_t2-IsMachine : (rt rn imm : ℕ) → OnSome IsMachine (i32_strb_imm_t2 ctx rt rn imm)
  unfolding i32_strb_imm_t2
  i32_strb_imm_t2-IsMachine rt rn imm = search steps depth 9 fits 4000

  pub i32_strb_imm_t3-IsMachine :
      (rt rn imm : ℕ) (p u w : Bool) → OnSome IsMachine (i32_strb_imm_t3 ctx rt rn imm p u w)
  unfolding i32_strb_imm_t3
  i32_strb_imm_t3-IsMachine rt rn imm p u w = search steps depth 9 fits 4000

  pub i16_strb_reg_t1-IsMachine : (rt rn rm : ℕ) → OnSome IsMachine (i16_strb_reg_t1 ctx rt rn rm)
  unfolding i16_strb_reg_t1
  i16_strb_reg_t1-IsMachine rt rn rm = search steps depth 9 fits 4000

  pub i32_strb_reg_t2-IsMachine :
      (rt rn rm imm : ℕ) → OnSome IsMachine (i32_strb_reg_t2 ctx rt rn rm imm)
  unfolding i32_strb_reg_t2
  i32_strb_reg_t2-IsMachine rt rn rm imm = search steps depth 9 fits 4000

  pub i32_strd_imm_t1-IsMachine :
      (rt rn rtx imm : ℕ) (p u w : Bool)
      → OnSome IsMachine (i32_strd_imm_t1 ctx rt rn rtx imm p u w)
  unfolding i32_strd_imm_t1
  i32_strd_imm_t1-IsMachine rt rn rtx imm p u w = search steps depth 9 fits 4000

  pub i16_strh_imm_t1-IsMachine : (rt rn imm : ℕ) → OnSome IsMachine (i16_strh_imm_t1 ctx rt rn imm)
  unfolding i16_strh_imm_t1
  i16_strh_imm_t1-IsMachine rt rn imm = search steps depth 9 fits 4000

  pub i32_strh_imm_t2-IsMachine : (rt rn imm : ℕ) → OnSome IsMachine (i32_strh_imm_t2 ctx rt rn imm)
  unfolding i32_strh_imm_t2
  i32_strh_imm_t2-IsMachine rt rn imm = search steps depth 9 fits 4000
