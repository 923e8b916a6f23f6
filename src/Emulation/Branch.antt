-- ===== src/Emulation/Branch.antt =====
-- impl_emulation.c: branches and the IT instruction.
pub mod Targets
use libthumb2sim.Base.{
  ℕ, zero, suc, ◌+◌, ◌-◌, ◌*◌, ◌/◌, ◌%◌, ◌^◌, ◌≤◌, ◌<◌, ◌≡◌, ◌≢◌, ◌⊎◌, ◌↔◌, inl, inr, refl, sym, ap,
  ap₂, subst, ◌∙◌, Bool, true, false, not, ◌&&◌, ◌||◌, Option, none, some, List, [], ◌∷◌, ◌++◌, ltb,
  leb, ◌==◌, same, if◌then◌else◌, ◌>>=◌, u8, u16, u32, add32, sub32, mul32, not32, shl32, shr32,
  asr32, bit_and, bit_or, bit_xor, length, All, Bool-cases, Option-cases, arith, ltb→lt, lt→ltb,
  ==_iff, holds_below, holds_below_sound,
}
use libthumb2sim.Cpu.{
  Cpu, EmuCtx, InsnEmuCtx, IsMachine, reg_r0, reg_r1, reg_r2, reg_sp, reg_lr, reg_pc, get_reg,
  get_psr, memory, update, with_cpu, set_reg, set_psr, set_memory, set_advance_pc,
}
use libthumb2sim.Emulation.Flags.{
  flag_negative, flag_zero, flag_carry, flag_overflow, flag_saturation, flag_mask, it_none, it_then,
  it_else, is_negative, set_cond_code, cond_satisfied_psr, cond_satisfied, should_exec_next_insn,
  execution_unconditionally, add_cond_code, sub_cond_code, mov_cond_code, set_mov_cond_code,
  set_lsl_cond_code, set_sub_cond_code, set_add_cond_code,
}
use libthumb2sim.AddressSpace.{
  AddressSpace, AddressSlice, memptr, getslice, read8, read16, read32, write8, write16, write32,
  add_region,
}

-- `aImmediate >= (1 << (aImmBits - 1))` marks a negative offset.
unfoldable pub relative_branch_target : ℕ → ℕ → ℕ → ℕ
relative_branch_target pc immediate imm_bits =
    if leb (2 ^ (imm_bits - 1)) immediate
    then add32 (sub32 pc (add32 4 (mul32 2 (sub32 (2 ^ imm_bits) immediate)))) 8
    else add32 (add32 pc (mul32 2 immediate)) 4

-- The PC is set, and is not advanced past the instruction.
abbrev pub branch : InsnEmuCtx → ℕ → InsnEmuCtx
branch ctx target = set_advance_pc (set_reg ctx reg_pc target) false

unfoldable pub i16_b_t1 : InsnEmuCtx → ℕ → ℕ → InsnEmuCtx
i16_b_t1 ctx imm cond =
    if cond_satisfied ctx cond
    then branch ctx (relative_branch_target (get_reg ctx reg_pc) imm 8)
    else ctx

unfoldable pub i16_b_t2 : InsnEmuCtx → ℕ → InsnEmuCtx
i16_b_t2 ctx imm = branch ctx (relative_branch_target (get_reg ctx reg_pc) imm 11)

unfoldable pub i32_b_t3 : InsnEmuCtx → ℕ → ℕ → InsnEmuCtx
i32_b_t3 ctx imm cond =
    if cond_satisfied ctx cond
    then branch ctx (add32 (add32 (get_reg ctx reg_pc) (mul32 2 imm)) 4)
    else ctx

unfoldable pub i32_b_t4 : InsnEmuCtx → ℕ → InsnEmuCtx
i32_b_t4 ctx imm = branch ctx (add32 (add32 (get_reg ctx reg_pc) (mul32 2 imm)) 4)

unfoldable pub i32_bl_t1 : InsnEmuCtx → ℕ → InsnEmuCtx
i32_bl_t1 ctx imm =
    let linked = set_reg ctx reg_lr (bit_or (add32 (get_reg ctx reg_pc) 4) 1) in
    branch linked (add32 (add32 (get_reg linked reg_pc) (mul32 2 imm)) 4)

unfoldable pub i16_bx_t1 : InsnEmuCtx → ℕ → InsnEmuCtx
i16_bx_t1 ctx rm = branch ctx (bit_and (get_reg ctx rm) (not32 1))

unfoldable pub i16_cbnz_t1 : InsnEmuCtx → ℕ → ℕ → Bool → InsnEmuCtx
i16_cbnz_t1 ctx rn imm op =
    if same (get_reg ctx rn == 0) op
    then ctx
    else branch ctx (relative_branch_target (get_reg ctx reg_pc) imm 7)

-- Without `h` the offset is reported as not implemented.
unfoldable pub i32_tbb_t1 : InsnEmuCtx → ℕ → ℕ → Bool → Option InsnEmuCtx
i32_tbb_t1 ctx rn rm h =
    let ctx' = branch ctx (add32 (get_reg ctx reg_pc) 4) in
    if h
    then (do
      offset ← read16 (memory ctx') (add32 (get_reg ctx' rn) (mul32 2 (get_reg ctx' rm)))
      some (set_reg ctx' reg_pc (add32 (get_reg ctx' reg_pc) (2 * offset))))
    else some ctx'

-- `for (i = 0; i < 3; i++)` with the rounds left: the number of instructions after the first.
unfoldable pub it_len_rounds : ℕ → ℕ → ℕ → ℕ → ℕ
it_len_rounds zero i mask len = len
it_len_rounds (suc left) i mask len =
    let rest = it_len_rounds left (i + 1) mask (len - 1) in
    if bit_and mask (2 ^ i) == 0 then rest else len

-- `it_state <<= 2; it_state |= ...` on a `uint8_t`.
abbrev pub push_it_state : ℕ → ℕ → ℕ
push_it_state state entry = bit_or (u8 (state * 4)) entry

-- `for (i = len - 1; i >= 0; i--)`, `suc i` with `i` the loop's variable.
unfoldable pub it_state_rounds : ℕ → ℕ → ℕ → ℕ → ℕ
it_state_rounds zero mask match state = state
it_state_rounds (suc i) mask match state =
    let then_entry = bit_and (mask / 2 ^ (3 - i)) 1 == match in
    it_state_rounds i mask match (push_it_state state (if then_entry then it_then else it_else))

-- The new `it_state` of IT, from the one before it.
unfoldable pub it_state_after : ℕ → ℕ → ℕ → ℕ
unfolding it_len_rounds it_state_rounds
it_state_after firstcond mask before =
    push_it_state (it_state_rounds (it_len_rounds 3 0 mask 3) mask (bit_and firstcond 1) before)
      it_then

unfoldable pub i16_it_t1 : InsnEmuCtx → ℕ → ℕ → InsnEmuCtx
i16_it_t1 ctx firstcond mask =
    let cpu = ctx.emu_ctx.cpu in
    let ctx' =
      with_cpu ctx (record cpu {
        it_cond = firstcond;
        it_state = it_state_after firstcond mask cpu.it_state;
      }) in
    record ctx' { shift_insn_it_state = false }
