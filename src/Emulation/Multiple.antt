-- ===== src/Emulation/Multiple.antt =====
-- impl_emulation.c: loads and stores of register lists, the stack among them.
use libthumb2sim.Base.{
  ℕ, zero, suc, ◌+◌, ◌-◌, ◌^◌, Bool, true, false, not, Option, some, ◌==◌, if◌then◌else◌, ◌>>=◌,
  add32, sub32, not32, bit_and, bit_or,
}
use libthumb2sim.Cpu.{
  InsnEmuCtx, reg_sp, reg_lr, reg_pc, get_reg, memory, set_reg, set_memory, set_advance_pc,
}
use libthumb2sim.AddressSpace.{AddressSpace, read32, write32}

-- `registers & (1 << reg_no)`
abbrev pub listed : ℕ → ℕ → Bool
listed registers reg_no = not (bit_and registers (2 ^ reg_no) == 0)

-- The loop of `storeRegisters` with the rounds left: the register's number, the address and the
-- memory. The registers are not changed in it. After the last round of a descending loop the
-- number would be -1; it is not looked at.
unfoldable pub store_rounds :
    (ℕ → ℕ) → ℕ → Bool → ℕ → ℕ → ℕ → AddressSpace → Option (ℕ × AddressSpace)
store_rounds reg registers increment_after zero reg_no addr m = some (addr, m)
store_rounds reg registers increment_after (suc left) reg_no addr m =
    let next = if increment_after then reg_no + 1 else reg_no - 1 in
    let at = if increment_after then addr else sub32 addr 4 in
    let after = if increment_after then add32 at 4 else at in
    let skip = store_rounds reg registers increment_after left next addr m in
    let take = write32 m at (reg reg_no) >>= λ m'.
    store_rounds reg registers increment_after left next after m' in
    if listed registers reg_no then take else skip

unfoldable pub store_registers : InsnEmuCtx → ℕ → ℕ → Bool → Bool → Option InsnEmuCtx
unfolding store_rounds
store_registers ctx base registers increment_after wback = do
  let first = if increment_after then 0 else 15
  (addr, m) ←
      store_rounds ctx.emu_ctx.cpu.reg registers increment_after 16 first (get_reg ctx base)
        (memory ctx)
  let ctx' = set_memory ctx m
  some (if wback then set_reg ctx' base addr else ctx')

-- The loop of `loadRegisters` with the rounds left: the register's number, the address, the context.
unfoldable pub load_rounds : ℕ → ℕ → ℕ → ℕ → InsnEmuCtx → Option (ℕ × InsnEmuCtx)
load_rounds registers zero i addr ctx = some (addr, ctx)
load_rounds registers (suc left) i addr ctx =
    let skip = load_rounds registers left (i + 1) addr ctx in
    let take = read32 (memory ctx) addr >>= λ value.
    load_rounds registers left (i + 1) (add32 addr 4) (
      if i == reg_pc
      then set_advance_pc (set_reg ctx i (bit_and value (not32 1))) false
      else set_reg ctx i value) in
    if listed registers i then take else skip

unfoldable pub load_registers : InsnEmuCtx → ℕ → ℕ → Bool → Option InsnEmuCtx
unfolding load_rounds
load_registers ctx base registers wback = do
  (addr, ctx') ← load_rounds registers 16 0 (get_reg ctx base) ctx
  some (if wback then set_reg ctx' base addr else ctx')

-- `if (M) register_list |= 1 << REG_LR`
abbrev pub with_lr : ℕ → Bool → ℕ
with_lr registers m = if m then bit_or registers (2 ^ reg_lr) else registers

abbrev pub with_pc : ℕ → Bool → ℕ
with_pc registers p = if p then bit_or registers (2 ^ reg_pc) else registers

-- `if (P) ctx->advance_pc = false`
abbrev pub holding_pc : InsnEmuCtx → Bool → InsnEmuCtx
holding_pc ctx p = if p then set_advance_pc ctx false else ctx

unfoldable pub i16_ldm_t1 : InsnEmuCtx → ℕ → ℕ → Option InsnEmuCtx
i16_ldm_t1 ctx rn register_list =
    load_registers ctx rn register_list (bit_and register_list (2 ^ rn) == 0)

unfoldable pub i32_ldm_t2 : InsnEmuCtx → ℕ → ℕ → Bool → Bool → Bool → Option InsnEmuCtx
i32_ldm_t2 ctx rn register_list p m w =
    load_registers (holding_pc ctx p) rn (with_lr (with_pc register_list p) m) w

unfoldable pub i16_pop_t1 : InsnEmuCtx → ℕ → Bool → Option InsnEmuCtx
i16_pop_t1 ctx register_list p =
    load_registers (holding_pc ctx p) reg_sp (with_pc register_list p) true

unfoldable pub i32_pop_t2 : InsnEmuCtx → ℕ → Bool → Bool → Option InsnEmuCtx
i32_pop_t2 ctx register_list p m =
    load_registers (holding_pc ctx p) reg_sp (with_lr (with_pc register_list p) m) true

unfoldable pub i32_pop_t3 : InsnEmuCtx → ℕ → Option InsnEmuCtx
i32_pop_t3 ctx rt = do
  ctx' ← load_registers ctx reg_sp (2 ^ rt) true
  some (set_advance_pc ctx' (not (rt == reg_pc)))

unfoldable pub i16_push_t1 : InsnEmuCtx → ℕ → Bool → Option InsnEmuCtx
i16_push_t1 ctx register_list m = store_registers ctx reg_sp (with_lr register_list m) false true

unfoldable pub i32_push_t2 : InsnEmuCtx → ℕ → Bool → Option InsnEmuCtx
i32_push_t2 ctx register_list m = store_registers ctx reg_sp (with_lr register_list m) false true

unfoldable pub i16_stm_t1 : InsnEmuCtx → ℕ → ℕ → Option InsnEmuCtx
i16_stm_t1 ctx rn register_list = store_registers ctx rn register_list true true

unfoldable pub i32_stm_t2 : InsnEmuCtx → ℕ → ℕ → Bool → Bool → Option InsnEmuCtx
i32_stm_t2 ctx rn register_list m w = store_registers ctx rn (with_lr register_list m) true w

unfoldable pub i32_stmdb_t1 : InsnEmuCtx → ℕ → ℕ → Bool → Bool → Option InsnEmuCtx
i32_stmdb_t1 ctx rn register_list m w = store_registers ctx rn (with_lr register_list m) false w
