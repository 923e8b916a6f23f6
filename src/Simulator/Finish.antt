-- ===== src/Simulator/Finish.antt =====
-- cpu_cm3.c: what follows an instruction in a step, and the validity of the state.
use libthumb2sim.Base.{either, ℕ, ◌*◌, ◌^◌, ◌<◌, ◌==◌, arith, bit_and, bit_or, not32, add32}
use libthumb2sim.Base.Bits.{bit_and-le_right, bit_or-lt}
use libthumb2sim.Cpu.{InsnEmuCtx, IsMachine, reg_pc, get_reg, set_reg, update}
use libthumb2sim.Simulator.{finish, finish_pc, finish_count, finish_it, finish_psr, execution_psr}

updated-lt :
    (reg : ℕ → ℕ) (i v : ℕ)
    → ((j : ℕ) → reg j < 2 ^ 32)
    → v < 2 ^ 32
    → (j : ℕ) → update reg i v j < 2 ^ 32
updated-lt reg i v old new j = either (λ x. x < 2 ^ 32) (j == i) new (old j)

execution_psr-lt : (p st c : ℕ) → c < 2 ^ 8 → execution_psr p st c < 2 ^ 32
unfolding execution_psr
execution_psr-lt p st c hc =
    let cleared = bit_and p (not32 0xff00) in
    let written = bit_or 0x0900 (c * 2 ^ 12) in
    let a : cleared < 2 ^ 32 = omega (arith, bit_and-le_right p (not32 0xff00)) in
    let b : written < 2 ^ 32 = bit_or-lt 32 0x0900 (c * 2 ^ 12) (omega arith) (omega arith) in
    let both : bit_or cleared written < 2 ^ 32 = bit_or-lt 32 cleared written a b in
    either (λ x. x < 2 ^ 32) (st == 0) (bit_or-lt 32 cleared 0x0100 a (omega arith))
      (either (λ x. x < 2 ^ 32) (st == 5)
        (bit_or-lt 32 (bit_or cleared written) 0x400 both (omega arith)) both)

finish_pc-IsMachine : (ctx : InsnEmuCtx) (n : ℕ) → IsMachine ctx → IsMachine (finish_pc ctx n)
unfolding finish_pc
finish_pc-IsMachine ctx n m = either IsMachine ctx.advance_pc advanced m
  where
    advanced : IsMachine (set_reg ctx reg_pc (add32 (get_reg ctx reg_pc) n))
    advanced = record {
      reg_bounds =
          updated-lt ctx.emu_ctx.cpu.reg reg_pc (add32 (get_reg ctx reg_pc) n) m.reg_bounds
            (omega arith);
      psr_bound = m.psr_bound;
      it_cond_bound = m.it_cond_bound;
      it_state_bound = m.it_state_bound;
      memory_valid = m.memory_valid;
    }

finish_count-IsMachine : (ctx : InsnEmuCtx) → IsMachine ctx → IsMachine (finish_count ctx)
unfolding finish_count
finish_count-IsMachine ctx m =
    either IsMachine ctx.count_next_insn
      (record {
        reg_bounds = m.reg_bounds;
        psr_bound = m.psr_bound;
        it_cond_bound = m.it_cond_bound;
        it_state_bound = m.it_state_bound;
        memory_valid = m.memory_valid;
      })
      m

finish_it-IsMachine : (ctx : InsnEmuCtx) → IsMachine ctx → IsMachine (finish_it ctx)
finish_it-IsMachine ctx m =
    either IsMachine ctx.shift_insn_it_state
      (record {
        reg_bounds = m.reg_bounds;
        psr_bound = m.psr_bound;
        it_cond_bound = m.it_cond_bound;
        it_state_bound = omega (arith, m.it_state_bound);
        memory_valid = m.memory_valid;
      })
      m

finish_psr-IsMachine : (ctx : InsnEmuCtx) → IsMachine ctx → IsMachine (finish_psr ctx)
unfolding finish_psr
finish_psr-IsMachine ctx m =
    let cpu = ctx.emu_ctx.cpu in
    record {
      reg_bounds = m.reg_bounds;
      psr_bound = execution_psr-lt cpu.psr cpu.it_state cpu.it_cond m.it_cond_bound;
      it_cond_bound = m.it_cond_bound;
      it_state_bound = m.it_state_bound;
      memory_valid = m.memory_valid;
    }

-- What a step does after the instruction, with any length, takes a valid machine to a valid
-- machine.
pub finish-IsMachine : (ctx : InsnEmuCtx) (n : ℕ) → IsMachine ctx → IsMachine (finish ctx n)
unfolding finish
finish-IsMachine ctx n m = finish_psr-IsMachine (finish_it (finish_count (finish_pc ctx n))) (
    finish_it-IsMachine (finish_count (finish_pc ctx n))
      (finish_count-IsMachine (finish_pc ctx n) (finish_pc-IsMachine ctx n m)))
