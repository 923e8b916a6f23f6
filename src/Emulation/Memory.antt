-- ===== src/Emulation/Memory.antt =====
-- impl_emulation.c: loads and stores of one or two registers.
pub mod RoundTrip
use libthumb2sim.Base.{
  ℕ, ◌*◌, Bool, not, Option, some, ◌==◌, if◌then◌else◌, ◌>>=◌, add32, sub32, not32, shl32, bit_and,
}
use libthumb2sim.Cpu.{
  InsnEmuCtx, reg_sp, reg_pc, get_reg, memory, set_reg, set_memory, set_advance_pc,
}
use libthumb2sim.AddressSpace.{AddressSpace, read8, read16, read32, write8, write16, write32}
use libthumb2sim.Emulation.Shift.{barrel_shift, type_lsl}

-- `reg[Rt] = addrspace_readN(target)`
abbrev pub load : (AddressSpace → ℕ → Option ℕ) → InsnEmuCtx → ℕ → ℕ → Option InsnEmuCtx
load read ctx rt target = do value ← read (memory ctx) target; some (set_reg ctx rt value)

-- `addrspace_writeN(target, value)`
abbrev pub store :
    (AddressSpace → ℕ → ℕ → Option AddressSpace) → InsnEmuCtx → ℕ → ℕ → Option InsnEmuCtx
store write ctx target value = do m ← write (memory ctx) target value; some (set_memory ctx m)

-- `base + (U ? 1 : -1) * n`
abbrev pub offset : Bool → ℕ → ℕ → ℕ
offset u base n = if u then add32 base n else sub32 base n

-- `reg[Rn] + (P ? 1 : 0) * (U ? 1 : -1) * n`
abbrev pub indexed : Bool → Bool → ℕ → ℕ → ℕ
indexed p u base n = if p then offset u base n else base

-- `if (W) reg[Rn] += (U ? 1 : -1) * n`
abbrev pub writeback : Bool → Bool → ℕ → ℕ → InsnEmuCtx → InsnEmuCtx
writeback w u rn n ctx = if w then set_reg ctx rn (offset u (get_reg ctx rn) n) else ctx

unfoldable pub i16_ldr_imm_t1 : InsnEmuCtx → ℕ → ℕ → ℕ → Option InsnEmuCtx
i16_ldr_imm_t1 ctx rt rn imm = load read32 ctx rt (add32 (get_reg ctx rn) (4 * imm))

unfoldable pub i16_ldr_imm_t2 : InsnEmuCtx → ℕ → ℕ → Option InsnEmuCtx
i16_ldr_imm_t2 ctx rt imm = load read32 ctx rt (add32 (get_reg ctx reg_sp) (4 * imm))

unfoldable pub i32_ldr_imm_t3 : InsnEmuCtx → ℕ → ℕ → ℕ → Option InsnEmuCtx
i32_ldr_imm_t3 ctx rt rn imm = load read32 ctx rt (add32 (get_reg ctx rn) imm)

unfoldable pub i32_ldr_imm_t4 : InsnEmuCtx → ℕ → ℕ → ℕ → Bool → Bool → Bool → Option InsnEmuCtx
i32_ldr_imm_t4 ctx rt rn imm p u w = do
  ctx' ← load read32 ctx rt (indexed p u (get_reg ctx rn) imm)
  some (writeback w u rn imm ctx')

unfoldable pub i16_ldr_lit_t1 : InsnEmuCtx → ℕ → ℕ → Option InsnEmuCtx
i16_ldr_lit_t1 ctx rt imm = do
  let target = add32 (add32 (bit_and (get_reg ctx reg_pc) (not32 3)) (imm * 4)) 4
  ctx' ← load read32 ctx rt target
  some (set_advance_pc ctx' (not (rt == reg_pc)))

unfoldable pub i32_ldr_lit_t2 : InsnEmuCtx → ℕ → ℕ → Bool → Option InsnEmuCtx
i32_ldr_lit_t2 ctx rt imm u = do
  let target = add32 (offset u (bit_and (get_reg ctx reg_pc) (not32 3)) imm) 4
  ctx' ← load read32 ctx rt target
  some (set_advance_pc ctx' (not (rt == reg_pc)))

unfoldable pub i16_ldr_reg_t1 : InsnEmuCtx → ℕ → ℕ → ℕ → Option InsnEmuCtx
i16_ldr_reg_t1 ctx rt rn rm = load read32 ctx rt (add32 (get_reg ctx rn) (get_reg ctx rm))

unfoldable pub i32_ldr_reg_t2 : InsnEmuCtx → ℕ → ℕ → ℕ → ℕ → Option InsnEmuCtx
i32_ldr_reg_t2 ctx rt rn rm imm = do
  shifted ← shl32 (get_reg ctx rm) imm
  load read32 ctx rt (add32 (get_reg ctx rn) shifted)

unfoldable pub i16_ldrb_imm_t1 : InsnEmuCtx → ℕ → ℕ → ℕ → Option InsnEmuCtx
i16_ldrb_imm_t1 ctx rt rn imm = load read8 ctx rt (add32 (get_reg ctx rn) imm)

unfoldable pub i32_ldrb_imm_t2 : InsnEmuCtx → ℕ → ℕ → ℕ → Option InsnEmuCtx
i32_ldrb_imm_t2 ctx rt rn imm = load read8 ctx rt (add32 (get_reg ctx rn) imm)

unfoldable pub i32_ldrb_imm_t3 : InsnEmuCtx → ℕ → ℕ → ℕ → Bool → Bool → Bool → Option InsnEmuCtx
i32_ldrb_imm_t3 ctx rt rn imm p u w = do
  ctx' ← load read8 ctx rt (indexed p u (get_reg ctx rn) imm)
  some (writeback w u rn imm ctx')

unfoldable pub i16_ldrb_reg_t1 : InsnEmuCtx → ℕ → ℕ → ℕ → Option InsnEmuCtx
i16_ldrb_reg_t1 ctx rt rn rm = load read8 ctx rt (add32 (get_reg ctx rn) (get_reg ctx rm))

-- The value is shifted, not the offset.
unfoldable pub i32_ldrb_reg_t2 : InsnEmuCtx → ℕ → ℕ → ℕ → ℕ → Option InsnEmuCtx
i32_ldrb_reg_t2 ctx rt rn rm imm = do
  value ← read8 (memory ctx) (add32 (get_reg ctx rn) (get_reg ctx rm))
  let shifted = do out ← barrel_shift value type_lsl imm; some out.value
  result ← if imm == 0 then some value else shifted
  some (set_reg ctx rt result)

unfoldable pub i32_ldrd_imm_t1 : InsnEmuCtx → ℕ → ℕ → ℕ → ℕ → Bool → Bool → Bool → Option InsnEmuCtx
i32_ldrd_imm_t1 ctx rt rn rtx imm p u w = do
  let target = indexed p u (get_reg ctx rn) (4 * imm)
  ctx₁ ← load read32 ctx rt target
  ctx₂ ← load read32 ctx₁ rtx (add32 target 4)
  some (writeback w u rn (4 * imm) ctx₂)

unfoldable pub i16_ldrh_imm_t1 : InsnEmuCtx → ℕ → ℕ → ℕ → Option InsnEmuCtx
i16_ldrh_imm_t1 ctx rt rn imm = load read16 ctx rt (add32 (get_reg ctx rn) (2 * imm))

unfoldable pub i32_ldrh_imm_t2 : InsnEmuCtx → ℕ → ℕ → ℕ → Option InsnEmuCtx
i32_ldrh_imm_t2 ctx rt rn imm = load read16 ctx rt (add32 (get_reg ctx rn) imm)

unfoldable pub i16_str_imm_t1 : InsnEmuCtx → ℕ → ℕ → ℕ → Option InsnEmuCtx
i16_str_imm_t1 ctx rt rn imm = store write32 ctx (add32 (get_reg ctx rn) (4 * imm)) (get_reg ctx rt)

unfoldable pub i16_str_imm_t2 : InsnEmuCtx → ℕ → ℕ → Option InsnEmuCtx
i16_str_imm_t2 ctx rt imm =
    store write32 ctx (add32 (get_reg ctx reg_sp) (4 * imm)) (get_reg ctx rt)

unfoldable pub i32_str_imm_t3 : InsnEmuCtx → ℕ → ℕ → ℕ → Option InsnEmuCtx
i32_str_imm_t3 ctx rt rn imm = store write32 ctx (add32 (get_reg ctx rn) imm) (get_reg ctx rt)

unfoldable pub i32_str_imm_t4 : InsnEmuCtx → ℕ → ℕ → ℕ → Bool → Bool → Bool → Option InsnEmuCtx
i32_str_imm_t4 ctx rt rn imm p u w = do
  ctx' ← store write32 ctx (indexed p u (get_reg ctx rn) imm) (get_reg ctx rt)
  some (writeback w u rn imm ctx')

unfoldable pub i16_str_reg_t1 : InsnEmuCtx → ℕ → ℕ → ℕ → Option InsnEmuCtx
i16_str_reg_t1 ctx rt rn rm =
    store write32 ctx (add32 (get_reg ctx rn) (get_reg ctx rm)) (get_reg ctx rt)

unfoldable pub i32_str_reg_t2 : InsnEmuCtx → ℕ → ℕ → ℕ → ℕ → Option InsnEmuCtx
i32_str_reg_t2 ctx rt rn rm imm = do
  shifted ← shl32 (get_reg ctx rm) imm
  store write32 ctx (add32 (get_reg ctx rn) shifted) (get_reg ctx rt)

unfoldable pub i16_strb_imm_t1 : InsnEmuCtx → ℕ → ℕ → ℕ → Option InsnEmuCtx
i16_strb_imm_t1 ctx rt rn imm =
    store write8 ctx (add32 (get_reg ctx rn) imm) (bit_and (get_reg ctx rt) 0xff)

unfoldable pub i32_strb_imm_t2 : InsnEmuCtx → ℕ → ℕ → ℕ → Option InsnEmuCtx
i32_strb_imm_t2 ctx rt rn imm =
    store write8 ctx (add32 (get_reg ctx rn) imm) (bit_and (get_reg ctx rt) 0xff)

unfoldable pub i32_strb_imm_t3 : InsnEmuCtx → ℕ → ℕ → ℕ → Bool → Bool → Bool → Option InsnEmuCtx
i32_strb_imm_t3 ctx rt rn imm p u w = do
  ctx' ← store write8 ctx (indexed p u (get_reg ctx rn) imm) (bit_and (get_reg ctx rt) 0xff)
  some (writeback w u rn imm ctx')

unfoldable pub i16_strb_reg_t1 : InsnEmuCtx → ℕ → ℕ → ℕ → Option InsnEmuCtx
i16_strb_reg_t1 ctx rt rn rm =
    store write8 ctx (add32 (get_reg ctx rn) (get_reg ctx rm)) (bit_and (get_reg ctx rt) 0xff)

unfoldable pub i32_strb_reg_t2 : InsnEmuCtx → ℕ → ℕ → ℕ → ℕ → Option InsnEmuCtx
i32_strb_reg_t2 ctx rt rn rm imm =
    store write8 ctx (add32 (add32 (get_reg ctx rn) (get_reg ctx rm)) imm)
      (bit_and (get_reg ctx rt) 0xff)

unfoldable pub i32_strd_imm_t1 : InsnEmuCtx → ℕ → ℕ → ℕ → ℕ → Bool → Bool → Bool → Option InsnEmuCtx
i32_strd_imm_t1 ctx rt rn rtx imm p u w = do
  let target = indexed p u (get_reg ctx rn) (4 * imm)
  ctx₁ ← store write32 ctx target (get_reg ctx rt)
  ctx₂ ← store write32 ctx₁ (add32 target 4) (get_reg ctx₁ rtx)
  some (writeback w u rn (4 * imm) ctx₂)

unfoldable pub i16_strh_imm_t1 : InsnEmuCtx → ℕ → ℕ → ℕ → Option InsnEmuCtx
i16_strh_imm_t1 ctx rt rn imm =
    store write16 ctx (add32 (get_reg ctx rn) (2 * imm)) (bit_and (get_reg ctx rt) 0xffff)

unfoldable pub i32_strh_imm_t2 : InsnEmuCtx → ℕ → ℕ → ℕ → Option InsnEmuCtx
i32_strh_imm_t2 ctx rt rn imm =
    store write16 ctx (add32 (get_reg ctx rn) imm) (bit_and (get_reg ctx rt) 0xffff)
