-- ===== src/App/Exit.antt =====
-- app/thumb2sim.c with cpu_cm3.c: how the guest ends the program.
use libthumb2sim.Base.{
  ℕ, suc, ◌≡◌, ◌≢◌, ◌⊎◌, inl, inr, ◌∙◌, ◌≤◌, refl, ap, true, false, some, leb, ◌==◌, if◌then◌else◌,
  arith,
}
use libthumb2sim.Cpu.{EmuCtx, reg_r0, reg_pc}
use libthumb2sim.Decoder.Insn.{Insn}
use libthumb2sim.Decoder.Decode.{decode_insn}
use libthumb2sim.Emulation.Flags.{should_exec_next_insn}
use libthumb2sim.Emulation.System.{i16_bkpt_t1, syscall}
use libthumb2sim.Emulation.Execute.{execute}
use libthumb2sim.Simulator.{read_insn_word, start, perform, single_step, end_emulation, run, ended}
use libthumb2sim.Simulator.Step.{passed, finish-start}
use libthumb2sim.Simulator.Loop.{run_go, run_stop}
use libthumb2sim.App.{UserCtx, callbacks, bkpt_callback, end_emulation_callback, syscall_exit}

-- The program's own state once the emulation is to end.
abbrev pub finished : UserCtx
finished = record { end_emulation = true }

module _ (emu : EmuCtx) where
  -- A breakpoint that sets the flag and leaves the rest.
  abbrev Ends : UserCtx → ℕ → Type 0
  Ends usr imm = i16_bkpt_t1 callbacks (start emu, usr) imm ≡ some (start emu, finished)

  syscall_exits :
      (usr : UserCtx) → emu.cpu.reg reg_r0 ≡ 3 → syscall callbacks (emu, usr) ≡ some (emu, finished)
  unfolding syscall syscall_exit
  syscall_exits usr h = ground (arith, h)

  exit-Ends : (usr : UserCtx) → emu.cpu.reg reg_r0 ≡ 3 → Ends usr 255
  unfolding i16_bkpt_t1 bkpt_callback
  exit-Ends usr h =
      rw (syscall_exits (if leb 1000000 emu.cpu.insn_ctr then finished else usr) h) refl

  tired-Ends :
      (usr : UserCtx) (imm : ℕ)
      → leb 1000000 emu.cpu.insn_ctr ≡ true
      → (imm == 255) ≡ false
      → Ends usr imm
  unfolding i16_bkpt_t1 bkpt_callback
  tired-Ends usr imm h k = rw (k, h) refl

  module _ (usr : UserCtx) (word imm fuel : ℕ)
      (fetched : read_insn_word emu.addr_space (emu.cpu.reg reg_pc) ≡ some word)
      (decoded : decode_insn word ≡ (2, some (Insn.bkpt_t1 imm)))
      (executed : should_exec_next_insn (start emu) ≡ true)
      (running : usr.end_emulation ≡ false) where
    stepped : Ends usr imm → single_step callbacks (emu, usr) ≡ some (passed emu 2, finished)
    unfolding single_step perform execute
    stepped ends =
        rw (single_step, fetched, decoded, executed, perform, execute, ends)
          (ap (λ (e : EmuCtx). some (e, finished)) (finish-start emu 2))

    run-Ends :
        Ends usr imm
        → run callbacks (suc (suc fuel)) (emu, usr) ≡ some (ended (passed emu 2, finished))
    unfolding end_emulation end_emulation_callback
    run-Ends ends =
        run_go callbacks (suc fuel) (emu, usr) (emu, usr) (ap (λ b. (emu, usr, b)) running)
        ∙ rw (stepped ends) (run_stop callbacks fuel _ (passed emu 2, finished) refl)

-- In the program, when the word at the PC is a BKPT that is executed and the flag for the end is
-- not set, and the number of the BKPT is 255 and r0 asks for the exit, or the number is another
-- and a million instructions are counted: with any number of rounds from 2 on the main loop ends
-- after this instruction, with the flag set, and of the emulator only the PC, the instruction
-- counter, the IT state and the status bits written from it have moved on, as after any
-- instruction of 2 bytes.
pub run-exit :
    (emu : EmuCtx) (usr : UserCtx) (word imm fuel : ℕ)
    → read_insn_word emu.addr_space (emu.cpu.reg reg_pc) ≡ some word
    → decode_insn word ≡ (2, some (Insn.bkpt_t1 imm))
    → should_exec_next_insn (start emu) ≡ true
    → usr.end_emulation ≡ false
    → ((imm ≡ 255) × (emu.cpu.reg reg_r0 ≡ 3)) ⊎ ((imm ≢ 255) × (1000000 ≤ emu.cpu.insn_ctr))
    → run callbacks (suc (suc fuel)) (emu, usr) ≡ some (ended (passed emu 2, finished))
run-exit emu usr word imm fuel fetched decoded executed running (inl h) =
    run-Ends emu usr word imm fuel fetched decoded executed running (rw h.0 (exit-Ends emu usr h.1))
run-exit emu usr word imm fuel fetched decoded executed running (inr h) =
    run-Ends emu usr word imm fuel fetched decoded executed running
      (tired-Ends emu usr imm (ground (arith, h.1)) (ground (arith, h.0)))
