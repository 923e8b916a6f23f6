-- ===== src/Tests.antt =====
-- A concrete state with a ROM and a RAM, for the tests of the modules below.
pub mod Memory
pub mod Decoding
pub mod Insns
pub mod Runs
pub mod Tools
use libthumb2sim.Emulation.Shift.{Shifted, barrel_shift, type_ror}
use libthumb2sim.Emulation.Shift.Rotate.{barrel_shift_ror}
use libthumb2sim.Simulator.{finish}
use libthumb2sim.Simulator.Finish.{finish-IsMachine}
use libthumb2sim.Emulation.Execute.{execute}
use libthumb2sim.Emulation.Move.{i16_mov_imm_t1}
use libthumb2sim.Decoder.Imm.{thumb_sign_extend24_eor}
use libthumb2sim.Decoder.Imm.Offset.{xnor, thumb_sign_extend24_eor_lem}
use libthumb2sim.Emulation.Memory.{i32_str_imm_t3, i32_ldr_imm_t3}
use libthumb2sim.Emulation.Memory.RoundTrip.{i32_ldr_imm_t3-i32_str_imm_t3}
use libthumb2sim.Emulation.Arith.{i32_umull_t1}
use libthumb2sim.Emulation.Arith.Product.{i32_umull_t1-product}
use libthumb2sim.Base.{
  ◌/◌, Option, ℕ, ◌+◌, ◌-◌, ◌*◌, ◌%◌, ◌^◌, ◌<◌, ◌≡◌, ◌⊎◌, ◌↔◌, inr, refl, Bool, true, false, not,
  none, some, [], ◌∷◌, ltb, leb, ◌==◌, if◌then◌else◌, u32, add32, sub32, arith,
}
use libthumb2sim.Cpu.{InsnEmuCtx, get_reg, EmuCtx, IsMachine, get_psr, set_reg}
use libthumb2sim.Emulation.Flags.{
  set_mov_cond_code, execution_unconditionally, set_cond_code, cond_satisfied_psr, cond_satisfied,
  should_exec_next_insn, add_cond_code, sub_cond_code,
}
use libthumb2sim.AddressSpace.{
  AddressSlice, AddressSpace, covers, getslice, load_byte, load_half, read_n, read8, read16, read32,
  write32, add_region,
}
use libthumb2sim.AddressSpace.Access.{IsValid, read32-ok}
use libthumb2sim.AddressSpace.Laws.{Written, write32-Written, read32-write32, read32-write32_ne}
use libthumb2sim.AddressSpace.Region.{Added, add_region-Added, getslice-add_region, read32-wrapped}
use libthumb2sim.Base.Int.{signed32, ◌+ℤ◌, ◌-ℤ◌, fits32}
use libthumb2sim.Decoder.Imm.{thumb_expand_imm, thumb_sign_extend20}
use libthumb2sim.Decoder.Imm.Laws.{
  expanded_imm, thumb_expand_imm_lem, sign_extended, thumb_sign_extend20_lem,
}
use libthumb2sim.Decoder.Insn.{Insn}
use libthumb2sim.Decoder.Row.{matches}
use libthumb2sim.Decoder.Decode.{first_match, rows, decode_insn}
use libthumb2sim.Decoder.Length.{length_of_word, decode_insn-length}
use libthumb2sim.Emulation.Flags.Codes.{nzcv, add_cond_code_lem, sub_cond_code_lem}
use libthumb2sim.Emulation.Flags.Conditions.{holds, cond_satisfied_psr-nzcv}
use libthumb2sim.Emulation.Flags.Compare.{compare_holds, psr-set_cond_code, cond_satisfied-cmp}
use libthumb2sim.Emulation.Arith.{i16_cmp_reg_t1}
use libthumb2sim.Emulation.Branch.{i16_it_t1, relative_branch_target}
use libthumb2sim.Emulation.Branch.Targets.{relative_branch_target_lem}
use libthumb2sim.Emulation.Logic.{i32_clz_t1}
use libthumb2sim.Emulation.Logic.Clz.{LeadingZeros, i32_clz_t1-LeadingZeros}
use libthumb2sim.Emulation.System.{Callbacks}
use libthumb2sim.Simulator.{
  end_emulation, perform, start, read_insn_word, execution_psr, ended, running, single_step, run,
  reset, HardwareParams, ImageFile, load_file, init_cortexm,
}
use libthumb2sim.Simulator.Init.{IsReady, booted, reset-IsReady, init_cortexm-IsReady, read8-booted}
use libthumb2sim.Simulator.ItBlock.{itstate, advanced, arm_executes, should_exec_next_insn-it}
use libthumb2sim.Simulator.Loop.{EndsWithin, IsStuck, run-ended_iff, run-undecodable}
use libthumb2sim.Simulator.Psr.{cond_satisfied_psr-execution_psr}
use libthumb2sim.Simulator.Step.{passed, single_step-skipped}

-- 16 bytes of ROM at 0 and 16 bytes of RAM at 0x20000000, which is mapped at 0x30000000 once more.
abbrev pub rom : AddressSlice
rom = record { begin = 0; end = 16; block = 0; read_only = true; shadow_mapping = false }

abbrev pub ram : AddressSlice
ram = record {
  begin = 0x20000000;
  end = 0x20000010;
  block = 1;
  read_only = false;
  shadow_mapping = false;
}

abbrev pub shadow : AddressSlice
shadow = record {
  begin = 0x30000000;
  end = 0x30000010;
  block = 1;
  read_only = false;
  shadow_mapping = true;
}

-- The ROM has a word that no branch of the decoder takes, the RAM has zeros.
abbrev pub bytes : ℕ → ℕ → ℕ
bytes b i = if b == 0 then 0xff else 0

abbrev pub space : AddressSpace
space = record { slices = rom ∷ ram ∷ shadow ∷ []; block_size = λ b. 16; byte = bytes }

pub bytes-lt : (b i : ℕ) → bytes b i < 2 ^ 8
bytes-lt b i = ground arith

pub space-IsValid : IsValid space
space-IsValid = record {
  few = omega arith;
  fits = (omega arith, (omega arith, (omega arith, tt)));
  bytes = bytes-lt;
}

abbrev pub registers : ℕ → ℕ
registers i = if i == 0 then 5 else if i == 1 then 0xfffffff0 else 0

abbrev pub state : EmuCtx
state = record {
  cpu = record { reg = registers; psr = 0x173; insn_ctr = 0; it_cond = 0; it_state = 0 };
  addr_space = space;
  ivt_base_address = 0;
}

pub registers-lt : (i : ℕ) → registers i < 2 ^ 32
registers-lt i = ground arith

pub state-IsMachine : IsMachine (start state)
state-IsMachine = record {
  reg_bounds = registers-lt;
  psr_bound = omega arith;
  it_cond_bound = omega arith;
  it_state_bound = omega arith;
  memory_valid = space-IsValid;
}

-- The last instruction of an IT block whose condition, EQ, does not hold.
abbrev pub excluded : EmuCtx
excluded = let cpu = state.cpu in record state { cpu = record cpu { it_cond = 0; it_state = 1 } }

abbrev pub stop_at_once : EmuCtx × ℕ → EmuCtx × ℕ × Bool
stop_at_once (emu, user) = (emu, user, true)

abbrev pub silent : Callbacks ℕ
silent = record {
  bkpt_callback = none;
  end_emulation_callback = none;
  syscall_read = none;
  syscall_write = none;
  syscall_puts = none;
  syscall_exit = none;
}

abbrev pub stopping : Callbacks ℕ
stopping = record silent { end_emulation_callback = some stop_at_once }

abbrev pub params : HardwareParams
params = record {
  rom_size_bytes = 16;
  ram_size_bytes = 16;
  ivt_base_address = 0;
  rom_base_address = 0;
  ram_base_address = 0x20000000;
}

abbrev pub counting : ℕ → ℕ
counting i = i + 3

abbrev pub image : ImageFile
image = record { size = 12; content = counting }
