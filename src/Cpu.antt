-- ===== src/Cpu.antt =====
-- include/thumb2sim.h and impl_emulation.h: the registers and the context of one instruction.
--
-- `reg` is a function of the register's number; the decoder yields numbers below 16 only. The
-- pointers of `insn_emu_ctx_t` are followed: the context holds the emulator's state. The callbacks
-- are parameters of `Emulation.System` and `Simulator`; the two debugging switches are left out.
use libthumb2sim.Base.{ℕ, ◌^◌, ◌<◌, Bool, ◌==◌, if◌then◌else◌}
use libthumb2sim.AddressSpace.{AddressSpace}
use libthumb2sim.AddressSpace.Access.{IsValid}

pub record Cpu : Type 0 where
  pub reg : ℕ → ℕ
  pub psr : ℕ
  pub insn_ctr : ℕ
  pub it_cond : ℕ
  pub it_state : ℕ

pub record EmuCtx : Type 0 where
  pub cpu : Cpu
  pub addr_space : AddressSpace
  pub ivt_base_address : ℕ

pub record InsnEmuCtx : Type 0 where
  pub emu_ctx : EmuCtx
  pub count_next_insn : Bool
  pub shift_insn_it_state : Bool
  pub advance_pc : Bool

abbrev pub reg_r0 : ℕ
reg_r0 = 0

abbrev pub reg_r1 : ℕ
reg_r1 = 1

abbrev pub reg_r2 : ℕ
reg_r2 = 2

abbrev pub reg_sp : ℕ
reg_sp = 13

abbrev pub reg_lr : ℕ
reg_lr = 14

abbrev pub reg_pc : ℕ
reg_pc = 15

-- Reading and writing the parts of a context.
abbrev pub get_reg : InsnEmuCtx → ℕ → ℕ
get_reg ctx i = ctx.emu_ctx.cpu.reg i

abbrev pub get_psr : InsnEmuCtx → ℕ
get_psr ctx = ctx.emu_ctx.cpu.psr

abbrev pub memory : InsnEmuCtx → AddressSpace
memory ctx = ctx.emu_ctx.addr_space

abbrev pub update : (ℕ → ℕ) → ℕ → ℕ → ℕ → ℕ
update f i v j = if j == i then v else f j

abbrev pub with_cpu : InsnEmuCtx → Cpu → InsnEmuCtx
with_cpu ctx cpu = let emu = ctx.emu_ctx in record ctx { emu_ctx = record emu { cpu = cpu } }

abbrev pub set_reg : InsnEmuCtx → ℕ → ℕ → InsnEmuCtx
set_reg ctx i v =
    let cpu = ctx.emu_ctx.cpu in with_cpu ctx (record cpu { reg = update cpu.reg i v })

abbrev pub set_psr : InsnEmuCtx → ℕ → InsnEmuCtx
set_psr ctx v = let cpu = ctx.emu_ctx.cpu in with_cpu ctx (record cpu { psr = v })

abbrev pub set_memory : InsnEmuCtx → AddressSpace → InsnEmuCtx
set_memory ctx m = let emu = ctx.emu_ctx in record ctx { emu_ctx = record emu { addr_space = m } }

abbrev pub set_advance_pc : InsnEmuCtx → Bool → InsnEmuCtx
set_advance_pc ctx b = record ctx { advance_pc = b }

-- Registers and PSR hold 32 bits, the IT fields 8, and the address space is valid.
pub record IsMachine (ctx : InsnEmuCtx) : Type 0 where
  pub reg_bounds : (i : ℕ) → get_reg ctx i < 2 ^ 32
  pub psr_bound : get_psr ctx < 2 ^ 32
  pub it_cond_bound : ctx.emu_ctx.cpu.it_cond < 2 ^ 8
  pub it_state_bound : ctx.emu_ctx.cpu.it_state < 2 ^ 8
  pub memory_valid : IsValid (memory ctx)
