-- ===== src/Simulator/Step.antt =====
-- cpu_cm3.c: steps that execute no instruction.
use libthumb2sim.Base.{
  ℕ, ◌/◌, ◌^◌, ◌<◌, ◌≡◌, inl, inr, refl, ap, ◌∙◌, false, Option, none, some, add32, Bool-cases,
  arith,
}
use libthumb2sim.Cpu.{EmuCtx, reg_pc, update}
use libthumb2sim.Emulation.Flags.{should_exec_next_insn}
use libthumb2sim.Simulator.{
  read_insn_word, finish, finish_pc, finish_count, finish_psr, execution_psr, start, perform,
  single_step,
}
use libthumb2sim.Emulation.System.{Callbacks}
use libthumb2sim.Decoder.Insn.{Insn}
use libthumb2sim.Decoder.Decode.{decode_insn, first_match, rows}

-- What a step does that executes nothing: registers, memory and flags are left, but for the PC.
abbrev pub passed : EmuCtx → ℕ → EmuCtx
passed emu insn_length =
    let cpu = emu.cpu in
    record emu {
      cpu = record cpu {
        reg = update cpu.reg reg_pc (add32 (cpu.reg reg_pc) insn_length);
        psr = execution_psr cpu.psr (cpu.it_state / 4) cpu.it_cond;
        insn_ctr = add32 cpu.insn_ctr 1;
        it_state = cpu.it_state / 4;
      };
    }

pub finish-start :
    (emu : EmuCtx) (insn_length : ℕ)
    → (finish (start emu) insn_length).emu_ctx ≡ passed emu insn_length
unfolding finish finish_pc finish_count finish_psr
finish-start emu insn_length = refl

module _ {U : Type 0} (host : Callbacks U) (emu : EmuCtx) (user : U) (word : ℕ) where
  single_step_lem :
      read_insn_word emu.addr_space (emu.cpu.reg reg_pc) ≡ some word
      → perform host (should_exec_next_insn (start emu)) (decode_insn word).1 (start emu, user)
        ≡ some (start emu, user)
      → single_step host (emu, user)
        ≡ some ((finish (start emu) (decode_insn word).0).emu_ctx, user)
  unfolding single_step
  single_step_lem fetched nothing = rw (fetched, nothing) refl

  -- When the fetch is defined and the IT block excludes the next instruction, a step changes only
  -- the PC, by the decoded length, the instruction counter, the IT state and the bits of the
  -- status register that are written from it, whatever the instruction is.
  pub single_step-skipped :
      read_insn_word emu.addr_space (emu.cpu.reg reg_pc) ≡ some word
      → should_exec_next_insn (start emu) ≡ false
      → single_step host (emu, user) ≡ some (passed emu (decode_insn word).0, user)
  unfolding perform
  single_step-skipped fetched excluded =
      single_step_lem fetched (rw excluded refl)
      ∙ ap (λ e. some (e, user)) (finish-start emu (decode_insn word).0)

  performs_none :
      decode_insn word ≡ (0, none)
      → perform host (should_exec_next_insn (start emu)) (decode_insn word).1 (start emu, user)
        ≡ some (start emu, user)
  unfolding perform
  performs_none nothing = rw nothing (elim (Bool-cases (should_exec_next_insn (start emu))) [
    | inl go ↦ rw go refl
    | inr skip ↦ rw skip refl
  ])

  decode_none : first_match rows word ≡ none → decode_insn word ≡ (0, none)
  unfolding decode_insn
  decode_none undecodable = rw (undecodable, decode_insn) refl

  -- A word that no branch of the decoder takes is passed over, with a length of 0.
  pub single_step-undecodable :
      read_insn_word emu.addr_space (emu.cpu.reg reg_pc) ≡ some word
      → first_match rows word ≡ none
      → single_step host (emu, user) ≡ some (passed emu 0, user)
  single_step-undecodable fetched undecodable =
      let nothing : decode_insn word ≡ (0, none) = decode_none undecodable in
      single_step_lem fetched (performs_none nothing)
      ∙ ap (λ e. some (e, user)) (finish-start emu (decode_insn word).0)
      ∙ ap (λ (d : ℕ × Option Insn). some (passed emu d.0, user)) nothing

reg-passed_at :
    (emu : EmuCtx)
    → emu.cpu.reg reg_pc < 2 ^ 32
    → (i : ℕ) → (passed emu 0).cpu.reg i ≡ emu.cpu.reg i
reg-passed_at emu bound i = ground arith

-- A length of 0 leaves every register.
pub reg-passed : (emu : EmuCtx) → emu.cpu.reg reg_pc < 2 ^ 32 → (passed emu 0).cpu.reg ≡ emu.cpu.reg
reg-passed emu bound = λ k i. reg-passed_at emu bound i k
