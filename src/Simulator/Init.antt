-- ===== src/Simulator/Init.antt =====
-- cpu_cm3.c and convenience.c: the state in which the emulation begins.
use libthumb2sim.Base.{
  ℕ, ◌+◌, ◌%◌, ◌^◌, ◌≤◌, ◌<◌, ◌≡◌, refl, ap, ◌∙◌, true, false, Option, none, some, [], ◌∷◌, add32,
  not32, bit_and, arith,
}
use libthumb2sim.Base.{if◌then◌else◌, ltb}
use libthumb2sim.Cpu.{EmuCtx, IsMachine, reg_sp, reg_lr, reg_pc, update}
use libthumb2sim.Base.Bits.{bit_and_field, bit_and-le_right}
use libthumb2sim.AddressSpace.{
  AddressSlice, AddressSpace, covers, load_byte, read_n, read8, read32, add_region, init,
}
use libthumb2sim.AddressSpace.Region.{getslice_head}
use libthumb2sim.AddressSpace.Access.{IsValid, read32-ok}
use libthumb2sim.Simulator.{
  start, reset, HardwareParams, ImageFile, load_file, rom_block, ram_block, initial_memory,
  initial_emu, init_cortexm,
}

-- The state after the reset, from the two words of the vector table.
pub record IsReady (emu : EmuCtx) : Type 0 where
  pub machine : IsMachine (start emu)
  pub even_pc : emu.cpu.reg reg_pc % 2 ≡ 0
  pub lr : emu.cpu.reg reg_lr ≡ 0xffffffff
  pub sp : read32 emu.addr_space emu.ivt_base_address ≡ some (emu.cpu.reg reg_sp)
  pub psr : emu.cpu.psr ≡ 0x173

even : (v : ℕ) → bit_and v (not32 1) % 2 ≡ 0
even v = omega (arith, bit_and_field 1 v 2147483647)

-- The registers that `reset` leaves.
abbrev reset_regs : ℕ → ℕ → ℕ → ℕ
reset_regs sp entry =
    update (update (update (λ i. 0) reg_lr 0xffffffff) reg_sp sp) reg_pc (bit_and entry (not32 1))

reset_regs-lt : (sp entry i : ℕ) → sp < 2 ^ 32 → reset_regs sp entry i < 2 ^ 32
reset_regs-lt sp entry i h = ground (arith, bit_and-le_right entry (not32 1))

-- The state that `reset` leaves.
abbrev after_reset : EmuCtx → ℕ → ℕ → EmuCtx
after_reset emu sp entry =
    let cpu = emu.cpu in
    record emu { cpu = record cpu { reg = reset_regs sp entry; psr = 0x173; insn_ctr = 0 } }

reset_lem :
    (emu : EmuCtx) (sp entry : ℕ)
    → read32 emu.addr_space (add32 emu.ivt_base_address 0) ≡ some sp
    → read32 emu.addr_space (add32 emu.ivt_base_address 4) ≡ some entry
    → reset emu ≡ some (after_reset emu sp entry)
unfolding reset
reset_lem emu sp entry first second = rw (first, second) refl

-- For a valid address space, 8-bit IT fields and a vector table whose first two words do not wrap
-- round, the reset is defined and gives a valid machine with an even PC, the initial LR and PSR
-- and the SP of the vector table, over the same address space.
pub reset-IsReady :
    (emu : EmuCtx)
    → IsValid emu.addr_space
    → emu.ivt_base_address + 8 ≤ 2 ^ 32
    → emu.cpu.it_cond < 2 ^ 8
    → emu.cpu.it_state < 2 ^ 8
    → (emu' : EmuCtx) × (reset emu ≡ some emu') × IsReady emu' × (emu'.addr_space ≡ emu.addr_space)
reset-IsReady emu valid table cond state =
    let base : add32 emu.ivt_base_address 0 ≡ emu.ivt_base_address = omega arith in
    let (sp, sp_read, sp_lt) = read32-ok valid emu.ivt_base_address (omega arith) in
    let (entry, entry_read, entry_lt) =
      read32-ok valid (add32 emu.ivt_base_address 4) (omega arith) in
    (
      after_reset emu sp entry,
      reset_lem emu sp entry (ap (read32 emu.addr_space) base ∙ sp_read) entry_read,
      record {
        machine = record {
          reg_bounds = λ i. reset_regs-lt sp entry i sp_lt;
          psr_bound = omega arith;
          it_cond_bound = cond;
          it_state_bound = state;
          memory_valid = valid;
        };
        even_pc = even entry;
        lr = refl;
        sp = sp_read;
        psr = refl;
      },
      refl,
    )

abbrev rom_slice : HardwareParams → AddressSlice
rom_slice params = record {
  begin = params.rom_base_address;
  end = add32 params.rom_base_address params.rom_size_bytes;
  block = rom_block;
  read_only = true;
  shadow_mapping = false;
}

abbrev ram_slice : HardwareParams → AddressSlice
ram_slice params = record {
  begin = params.ram_base_address;
  end = add32 params.ram_base_address params.ram_size_bytes;
  block = ram_block;
  read_only = false;
  shadow_mapping = false;
}

-- The address space of the initial state.
abbrev pub booted : HardwareParams → Option ImageFile → Option ImageFile → AddressSpace
booted params rom_image ram_image =
    let m = initial_memory params rom_image ram_image in
    record m { slices = rom_slice params ∷ ram_slice params ∷ [] }

init_cortexm-booted :
    (params : HardwareParams) (rom_image ram_image : Option ImageFile)
    → init_cortexm params true rom_image ram_image
      ≡ reset (initial_emu params (booted params rom_image ram_image))
unfolding init_cortexm add_region init
init_cortexm-booted params rom_image ram_image = refl

load_file-lt : (f : Option ImageFile) (size i : ℕ) → load_file f size i < 2 ^ 8
unfolding load_file
load_file-lt none size i = omega arith
load_file-lt (some f) size i = ground arith

initial_memory-bytes :
    (params : HardwareParams) (rom_image ram_image : Option ImageFile) (b o : ℕ)
    → (initial_memory params rom_image ram_image).byte b o < 2 ^ 8
unfolding initial_memory
initial_memory-bytes params rom_image ram_image b o = ground (
  arith,
  load_file-lt rom_image params.rom_size_bytes o,
  load_file-lt ram_image params.ram_size_bytes o,
)

booted-IsValid :
    (params : HardwareParams) (rom_image ram_image : Option ImageFile)
    → IsValid (booted params rom_image ram_image)
unfolding initial_memory
booted-IsValid params rom_image ram_image = record {
  few = omega arith;
  fits = (omega arith, (omega arith, tt));
  bytes = initial_memory-bytes params rom_image ram_image;
}

-- When memory for the emulator is there and the first two words of the vector table do not wrap
-- round, the set-up gives a state that is a valid machine with an even PC, the initial LR and PSR
-- and the SP of the vector table, over the address space of the ROM and the RAM slice, whatever
-- their sizes, places and images are.
pub init_cortexm-IsReady :
    (params : HardwareParams) (rom_image ram_image : Option ImageFile)
    → params.ivt_base_address + 8 ≤ 2 ^ 32
    → (emu : EmuCtx) × (init_cortexm params true rom_image ram_image ≡ some emu)
      × IsReady emu
      × (emu.addr_space ≡ booted params rom_image ram_image)
init_cortexm-IsReady params rom_image ram_image table =
    let start_state = initial_emu params (booted params rom_image ram_image) in
    let (emu, resets, ready, space) =
      reset-IsReady start_state (booted-IsValid params rom_image ram_image) table (omega arith)
        (omega arith) in
    (emu, init_cortexm-booted params rom_image ram_image ∙ resets, ready, space)

in_rom :
    (params : HardwareParams) (i : ℕ)
    → i < params.rom_size_bytes
    → params.rom_base_address + params.rom_size_bytes < 2 ^ 32
    → covers (rom_slice params) (params.rom_base_address + i) 1 ≡ true
unfolding covers
in_rom params i inside high = ground arith

-- The byte at an index of a file, and 0 past its end or without a file.
abbrev pub image_byte : Option ImageFile → ℕ → ℕ
image_byte none i = 0
image_byte (some f) i = if ltb i f.size then f.content i % 2 ^ 8 else 0

load_file-image_byte :
    (file : Option ImageFile) (max_length i : ℕ)
    → i < max_length
    → load_file file max_length i ≡ image_byte file i
unfolding load_file
load_file-image_byte none max_length i h = refl
load_file-image_byte (some f) max_length i h = ground arith

-- In the initial address space, when the ROM region ends below 2^32, a byte read inside it gives
-- the byte of the image at that place, and 0 past the end of the image or without one.
pub read8-booted :
    (params : HardwareParams) (rom_image ram_image : Option ImageFile) (i : ℕ)
    → i < params.rom_size_bytes
    → params.rom_base_address + params.rom_size_bytes < 2 ^ 32
    → read8 (booted params rom_image ram_image) (params.rom_base_address + i)
      ≡ some (image_byte rom_image i)
unfolding read8 read_n load_byte initial_memory
read8-booted params rom_image ram_image i inside high =
    let hit : covers (rom_slice params) (params.rom_base_address + i) 1 ≡ true =
      in_rom params i inside high in
    rw
      (
        getslice_head (rom_slice params) (ram_slice params ∷ []) (params.rom_base_address + i) 1
            hit,
        read_n,
      )
      (ground (
        arith,
        load_file-image_byte rom_image params.rom_size_bytes i inside,
        load_file-lt rom_image params.rom_size_bytes i,
      ))
