-- ===== src/Emulation/Machine/Branch.antt =====
-- impl_emulation.c: branches and IT, and the validity of the machine.
use libthumb2sim.Base.{ℕ, ◌*◌, ◌^◌, ◌<◌, Bool, u8, arith}
use libthumb2sim.Base.Bits.{bit_or-lt}
use libthumb2sim.Base.OnSome.{OnSome}
use libthumb2sim.Cpu.{InsnEmuCtx, IsMachine}
use libthumb2sim.Emulation.Branch.{
  i16_b_t1, i16_b_t2, i32_b_t3, i32_b_t4, i32_bl_t1, i16_bx_t1, i16_cbnz_t1, i32_tbb_t1, i16_it_t1,
}
use libthumb2sim.Emulation.Machine.Steps.{steps}
use libthumb2sim.Emulation.Flags.{it_then}
use libthumb2sim.Emulation.Branch.{push_it_state, it_state_after}

push_it_state-lt : (state entry : ℕ) → entry < 2 ^ 8 → push_it_state state entry < 2 ^ 8
push_it_state-lt state entry h = bit_or-lt 8 (u8 (state * 4)) entry (omega arith) h

module _ {ctx : InsnEmuCtx} (valid : IsMachine ctx) where
  pub i16_b_t1-IsMachine : (imm cond : ℕ) → IsMachine (i16_b_t1 ctx imm cond)
  unfolding i16_b_t1
  i16_b_t1-IsMachine imm cond = search steps depth 9 fits 4000

  pub i16_b_t2-IsMachine : (imm : ℕ) → IsMachine (i16_b_t2 ctx imm)
  unfolding i16_b_t2
  i16_b_t2-IsMachine imm = search steps depth 9 fits 4000

  pub i32_b_t3-IsMachine : (imm cond : ℕ) → IsMachine (i32_b_t3 ctx imm cond)
  unfolding i32_b_t3
  i32_b_t3-IsMachine imm cond = search steps depth 9 fits 4000

  pub i32_b_t4-IsMachine : (imm : ℕ) → IsMachine (i32_b_t4 ctx imm)
  unfolding i32_b_t4
  i32_b_t4-IsMachine imm = search steps depth 9 fits 4000

  pub i32_bl_t1-IsMachine : (imm : ℕ) → IsMachine (i32_bl_t1 ctx imm)
  unfolding i32_bl_t1
  i32_bl_t1-IsMachine imm = search steps depth 9 fits 4000

  pub i16_bx_t1-IsMachine : (rm : ℕ) → IsMachine (i16_bx_t1 ctx rm)
  unfolding i16_bx_t1
  i16_bx_t1-IsMachine rm = search steps depth 9 fits 4000

  pub i16_cbnz_t1-IsMachine : (rn imm : ℕ) (op : Bool) → IsMachine (i16_cbnz_t1 ctx rn imm op)
  unfolding i16_cbnz_t1
  i16_cbnz_t1-IsMachine rn imm op = search steps depth 9 fits 4000

  pub i32_tbb_t1-IsMachine : (rn rm : ℕ) (h : Bool) → OnSome IsMachine (i32_tbb_t1 ctx rn rm h)
  unfolding i32_tbb_t1
  i32_tbb_t1-IsMachine rn rm h = search steps depth 9 fits 4000

  pub i16_it_t1-IsMachine :
      (firstcond mask : ℕ) → firstcond < 2 ^ 8 → IsMachine (i16_it_t1 ctx firstcond mask)
  unfolding i16_it_t1 it_state_after
  i16_it_t1-IsMachine firstcond mask h0 = record {
    reg_bounds = valid.reg_bounds;
    psr_bound = valid.psr_bound;
    it_cond_bound = h0;
    it_state_bound = push_it_state-lt _ it_then (omega arith);
    memory_valid = valid.memory_valid;
  }
