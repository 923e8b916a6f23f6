-- ===== src/Simulator.antt =====
-- cpu_cm3.c and convenience.c: one step of the CPU, the main loop, the reset and the set-up.
--
-- What a step prints of the instruction, and the printing of the state, are left out here.
pub mod ItBlock
pub mod Step
pub mod Loop
pub mod Psr
pub mod Init
pub mod Finish
use libthumb2sim.Base.{
  ℕ, zero, suc, ◌+◌, ◌-◌, ◌*◌, ◌/◌, ◌%◌, ◌^◌, ◌≤◌, ◌<◌, ◌≡◌, ◌≢◌, ◌⊎◌, ◌↔◌, inl, inr, refl, sym, ap,
  ap₂, subst, ◌∙◌, Bool, true, false, not, ◌&&◌, ◌||◌, Option, none, some, List, [], ◌∷◌, ◌++◌, ltb,
  leb, ◌==◌, same, if◌then◌else◌, ◌>>=◌, u8, u16, u32, add32, sub32, mul32, not32, shl32, shr32,
  asr32, bit_and, bit_or, bit_xor, length, All, Bool-cases, Option-cases, arith, ltb→lt, lt→ltb,
  ==_iff, holds_below, holds_below_sound,
}
use libthumb2sim.Cpu.{
  Cpu, EmuCtx, InsnEmuCtx, IsMachine, reg_r0, reg_r1, reg_r2, reg_sp, reg_lr, reg_pc, get_reg,
  get_psr, memory, update, with_cpu, set_reg, set_psr, set_memory, set_advance_pc,
}
use libthumb2sim.AddressSpace.{
  AddressSpace, AddressSlice, memptr, getslice, read8, read16, read32, write8, write16, write32,
  add_region,
}
use libthumb2sim.AddressSpace
use libthumb2sim.Emulation.Flags.{should_exec_next_insn}
use libthumb2sim.Emulation.System.{Callbacks}
use libthumb2sim.Emulation.Execute.{execute}
use libthumb2sim.Decoder.Insn.{Insn}
use libthumb2sim.Decoder.Decode.{decode_insn}

unfoldable pub read_insn_word : AddressSpace → ℕ → Option ℕ
read_insn_word m pc = do
  first ← read16 m pc
  second ← read16 m (add32 pc 2)
  some (bit_or (u32 (first * 2 ^ 16)) second)

-- What a step does after the instruction: the PC, the counter and the IT state move on.
unfoldable pub finish_pc : InsnEmuCtx → ℕ → InsnEmuCtx
finish_pc ctx insn_length =
    if ctx.advance_pc then set_reg ctx reg_pc (add32 (get_reg ctx reg_pc) insn_length) else ctx

unfoldable pub finish_count : InsnEmuCtx → InsnEmuCtx
finish_count ctx =
    let cpu = ctx.emu_ctx.cpu in
    if ctx.count_next_insn
    then with_cpu ctx (record cpu { insn_ctr = add32 cpu.insn_ctr 1 })
    else ctx

abbrev pub finish_it : InsnEmuCtx → InsnEmuCtx
finish_it ctx =
    let cpu = ctx.emu_ctx.cpu in
    if ctx.shift_insn_it_state
    then with_cpu ctx (record cpu { it_state = cpu.it_state / 2 ^ 2 })
    else ctx

-- The bits 8 to 15 of PSR are written anew from the IT state.
unfoldable pub execution_psr : ℕ → ℕ → ℕ → ℕ
execution_psr psr it_state it_cond =
    let cleared = bit_and psr (not32 0xff00) in
    if it_state == 0
    then bit_or cleared 0x0100
    else (let inside = bit_or cleared (bit_or 0x0900 (it_cond * 2 ^ 12)) in
        if it_state == 5 then bit_or inside 0x400 else inside)

unfoldable pub finish_psr : InsnEmuCtx → InsnEmuCtx
finish_psr ctx =
    let cpu = ctx.emu_ctx.cpu in set_psr ctx (execution_psr cpu.psr cpu.it_state cpu.it_cond)

unfoldable pub finish : InsnEmuCtx → ℕ → InsnEmuCtx
unfolding finish_pc finish_count finish_psr
finish ctx insn_length = finish_psr (finish_it (finish_count (finish_pc ctx insn_length)))

abbrev pub start : EmuCtx → InsnEmuCtx
start emu = record {
  emu_ctx = emu;
  count_next_insn = true;
  shift_insn_it_state = true;
  advance_pc = true;
}

-- The main loop ended by its callback, or the fuel is out and it goes on.
pub data Run (U : Type 0) : Type 0 where
  ended : EmuCtx × U → Run U
  running : EmuCtx × U → Run U

module _ {U : Type 0} (host : Callbacks U) where
  -- The call that `decode_insn` makes: none without a handler table.
  unfoldable pub perform : Bool → Option Insn → InsnEmuCtx × U → Option (InsnEmuCtx × U)
  perform false insn s = some s
  perform true none s = some s
  perform true (some insn) s = execute host insn s

  unfoldable pub single_step : EmuCtx × U → Option (EmuCtx × U)
  unfolding perform finish read_insn_word
  single_step (emu, user) = do
    let ctx = start emu
    word ← read_insn_word emu.addr_space (emu.cpu.reg reg_pc)
    let (insn_length, insn) = decode_insn word
    (ctx', user') ← perform (should_exec_next_insn ctx) insn (ctx, user)
    some ((finish ctx' insn_length).emu_ctx, user')

  unfoldable pub end_emulation : EmuCtx × U → EmuCtx × U × Bool
  end_emulation (emu, user) = elim host.end_emulation_callback [
    | some callback ↦ callback (emu, user)
    | none ↦ (emu, user, false)
  ]

  -- `while (true)` with fuel for the rounds.
  unfoldable pub run : ℕ → EmuCtx × U → Option (Run U)
  unfolding end_emulation
  run zero s = some (running s)
  run (suc fuel) s =
      let (emu, user, stop) = end_emulation s in
      let rest = single_step (emu, user) >>= run fuel in
      if stop then some (ended (emu, user)) else rest

-- `memset` of the registers.
abbrev pub all_zero : ℕ → ℕ
all_zero i = 0

unfoldable pub reset : EmuCtx → Option EmuCtx
reset emu = do
  sp ← read32 emu.addr_space (add32 emu.ivt_base_address 0)
  entry ← read32 emu.addr_space (add32 emu.ivt_base_address 4)
  let cpu = emu.cpu
  let with_lr = update all_zero reg_lr 0xffffffff
  let with_sp = update with_lr reg_sp sp
  let with_pc = update with_sp reg_pc (bit_and entry (not32 1))
  some (record emu { cpu = record cpu { reg = with_pc; psr = 0x173; insn_ctr = 0 } })

pub record HardwareParams : Type 0 where
  pub rom_size_bytes : ℕ
  pub ram_size_bytes : ℕ
  pub ivt_base_address : ℕ
  pub rom_base_address : ℕ
  pub ram_base_address : ℕ

-- A file that could be opened and read: its size and its bytes.
pub record ImageFile : Type 0 where
  pub size : ℕ
  pub content : ℕ → ℕ

-- `load_file` into a zeroed block of `max_length` bytes. No name, or a file that cannot be opened,
-- leaves the block as it is; a longer file is cut.
unfoldable pub load_file : Option ImageFile → ℕ → ℕ → ℕ
load_file none max_length i = 0
load_file (some f) max_length i =
    let read_length = if ltb f.size max_length then f.size else max_length in
    if ltb i read_length then u8 (f.content i) else 0

-- The blocks of `calloc`: 0 is the ROM, 1 the RAM.
abbrev pub rom_block : ℕ
rom_block = 0

abbrev pub ram_block : ℕ
ram_block = 1

-- The two blocks with the images in them.
unfoldable pub initial_memory : HardwareParams → Option ImageFile → Option ImageFile → AddressSpace
unfolding load_file
initial_memory params rom_image ram_image = record {
  slices = [];
  block_size = λ b.
      if b == rom_block
      then params.rom_size_bytes
      else if b == ram_block
      then params.ram_size_bytes
      else 0;
  byte = λ b i.
      if b == rom_block
      then load_file rom_image params.rom_size_bytes i
      else if b == ram_block
      then load_file ram_image params.ram_size_bytes i
      else 0;
}

-- `emu_ctx_t` from `calloc`, with its address space.
abbrev pub initial_emu : HardwareParams → AddressSpace → EmuCtx
initial_emu params m = record {
  cpu = record { reg = all_zero; psr = 0; insn_ctr = 0; it_cond = 0; it_state = 0 };
  addr_space = m;
  ivt_base_address = params.ivt_base_address;
}

-- `allocated` is whether `calloc` succeeded; `none` is also the exit of `addrspace_add_region`.
unfoldable pub init_cortexm :
    HardwareParams → Bool → Option ImageFile → Option ImageFile → Option EmuCtx
unfolding initial_memory reset
init_cortexm params allocated rom_image ram_image = do
  let m = AddressSpace.init (initial_memory params rom_image ram_image)
  with_rom ← add_region m params.rom_base_address params.rom_size_bytes rom_block true false
  with_ram ← add_region with_rom params.ram_base_address params.ram_size_bytes ram_block false false
  if allocated then reset (initial_emu params with_ram) else none
