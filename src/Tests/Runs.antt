-- ===== src/Tests/Runs.antt =====
-- cpu_cm3.c: steps and runs of the concrete state.
use libthumb2sim.Simulator.{finish}
use libthumb2sim.Emulation.Execute.{execute}
use libthumb2sim.Emulation.Move.{i16_mov_imm_t1}
use libthumb2sim.Base.{Option, ℕ, ◌≡◌, ◌↔◌, refl, none, some, ◌==◌, if◌then◌else◌, arith}
use libthumb2sim.Cpu.{EmuCtx, InsnEmuCtx, set_reg}
use libthumb2sim.Emulation.Flags.{
  set_mov_cond_code, execution_unconditionally, cond_satisfied_psr, should_exec_next_insn,
}
use libthumb2sim.AddressSpace.{covers, getslice, load_byte, load_half, read_n, read16}
use libthumb2sim.Decoder.Decode.{decode_insn}
use libthumb2sim.Simulator.{
  perform, start, read_insn_word, execution_psr, ended, running, single_step, run,
}
use libthumb2sim.Simulator.ItBlock.{
  itstate, advanced, arm_executes, opened, after_insn, now, should_exec_next_insn-it,
}
use libthumb2sim.Simulator.Loop.{EndsWithin, IsStuck, run-ended_iff, run-undecodable}
use libthumb2sim.Simulator.Psr.{cond_satisfied_psr-execution_psr}
use libthumb2sim.Simulator.Step.{passed, single_step-skipped}
use libthumb2sim.Tests.{space, state, excluded, silent, stopping}
use libthumb2sim.Tests.Decoding.{decode_movs, unknown_word}

-- The second instruction of ITE EQ, after a first one of 2 bytes that only writes a register.
abbrev first : InsnEmuCtx
first = set_reg (start (opened state 0 12)) 3 7

abbrev second : EmuCtx
second = (finish first 2).emu_ctx

should_exec_next_insn-it_example :
    should_exec_next_insn (start second) ≡ arm_executes second.cpu.psr (advanced 1 (itstate 0 12))
should_exec_next_insn-it_example =
    should_exec_next_insn-it state second 0 12 1 refl (omega arith) (omega arith) (omega arith)
      (omega arith) (after_insn first 2 refl refl refl now)

cond_satisfied_psr-execution_psr_example :
    cond_satisfied_psr (execution_psr 0x60000000 5 14) 2 ≡ cond_satisfied_psr 0x60000000 2
cond_satisfied_psr-execution_psr_example =
    cond_satisfied_psr-execution_psr 0x60000000 5 14 2 (omega arith) (omega arith)

single_step-skipped_example :
    single_step silent (excluded, 0) ≡ some (passed excluded (decode_insn 0xffffffff).0, 0)
unfolding read_insn_word read16 read_n getslice covers load_half load_byte should_exec_next_insn
    cond_satisfied_psr
single_step-skipped_example = single_step-skipped silent excluded 0 0xffffffff refl refl

run-ended_iff_example :
    (run stopping 1 (state, 0) ≡ some (ended (state, 0)))
    ↔ EndsWithin stopping 1 (state, 0) (state, 0)
run-ended_iff_example = run-ended_iff stopping 1 (state, 0) (state, 0)

run-undecodable_example :
    (emu' : EmuCtx) × (run silent 9 (state, 0) ≡ some (running (emu', 0))) × IsStuck state emu'
unfolding read_insn_word read16 read_n getslice covers load_half load_byte
run-undecodable_example =
    run-undecodable silent 9 state 0 0xffffffff refl (omega arith) refl unknown_word

-- MOVS r0, #7 at the beginning of a ROM.
abbrev program : ℕ → ℕ
program i =
    if i == 0
    then 0x07
    else if i == 1
    then 0x20
    else if i == 2
    then 0x03
    else if i == 3
    then 0x30
    else 0

abbrev loaded : EmuCtx
loaded = record state { addr_space = record space { byte = λ b. program } }

abbrev observed : Option (EmuCtx × ℕ) → Option (ℕ × ℕ × ℕ)
observed (some (emu, user)) = some (emu.cpu.reg 0, emu.cpu.reg 15, emu.cpu.insn_ctr)
observed none = none

movs_steps : observed (single_step silent (loaded, 0)) ≡ some (7, 2, 1)
unfolding single_step read_insn_word read16 read_n getslice covers load_half load_byte
    should_exec_next_insn perform execute i16_mov_imm_t1 set_mov_cond_code execution_unconditionally
movs_steps = rw decode_movs refl
