-- ===== src/Tests/Tools.antt =====
-- The program, the disassembler and the GDB server on the concrete state.
use libthumb2sim.Base.{
  ℕ, ◌≤◌, ◌≡◌, inl, refl, ap, ◌%◌, ◌==◌, if◌then◌else◌, true, false, Option, some, [], ◌∷◌, ◌++◌,
  length, take, concat, arith,
}
use libthumb2sim.AddressSpace.{covers, getslice, load_byte, load_half, read_n, read16}
use libthumb2sim.Cpu.{EmuCtx, InsnEmuCtx, get_reg, reg_pc}
use libthumb2sim.Decoder.Insn.{Insn}
use libthumb2sim.Decoder.Decode.{decode_insn}
use libthumb2sim.Decoder.Row.{matches}
use libthumb2sim.Decoder.Operands.{OperandsFit}
use libthumb2sim.Decoder.Operands.Words.{decode_insn-OperandsFit}
use libthumb2sim.Emulation.Branch.{i16_b_t2}
use libthumb2sim.Emulation.Execute.{run_insn}
use libthumb2sim.Emulation.Flags.{should_exec_next_insn}
use libthumb2sim.Simulator.{start, read_insn_word, run, ended}
use libthumb2sim.Simulator.Step.{passed}
use libthumb2sim.App.{main, callbacks, UserCtx}
use libthumb2sim.App.Exit.{finished, run-exit}
use libthumb2sim.App.Valid.{GoodRun, main-GoodRun}
use libthumb2sim.Base.OnSome.{OnSome}
use libthumb2sim.Disassembly.Text.{codes, digits, pad}
use libthumb2sim.Disassembly.Print.{
  print_opcode, print_setflags, print_width, reg_string, print_condition,
}
use libthumb2sim.Disassembly.Move.{disassembly_i16_mov_imm_t1}
use libthumb2sim.Disassembly.Operands.{print_ri}
use libthumb2sim.Disassembly.Dispatch.{disassemble}
use libthumb2sim.Disassembly.Buffer.{
  print_disas_callback, disassembly, disassembly_whole, print_calls, print_calls_lem,
}
use libthumb2sim.Disassembly.Hexdump.{
  hexdump_char, char_rounds, after_byte, byte_rounds, blank_rounds, last_row, hexdump_data,
}
use libthumb2sim.Disassembly.Trace.{disas_ctx}
use libthumb2sim.Disassembly.Agreement.{
  relative_insn, narrow, EndsWith, last_text, disassemble-run_insn,
}
use libthumb2sim.Gdb.{gdb_dump_memory}
use libthumb2sim.Gdb.Memory.{Answer, gdb_dump_memory-Answer}
use libthumb2sim.Tests.{image, space, space-IsValid, state}
use libthumb2sim.Tests.Decoding.{decode_movs}

-- A ROM that is full of BKPT 255, and a call of `exit` in r0.
abbrev breakpoints : ℕ → ℕ
breakpoints i = if i % 2 == 0 then 0xff else 0xbe

abbrev exiting : EmuCtx
exiting =
    let cpu = state.cpu in
    record state {
      cpu = record cpu { reg = λ i. if i == 0 then 3 else 0 };
      addr_space = record space { byte = λ b. breakpoints };
    }

abbrev started : UserCtx
started = record { end_emulation = false }

decode_bkpt : decode_insn 0xbeffbeff ≡ (2, some (Insn.bkpt_t1 255))
unfolding decode_insn matches
decode_bkpt = refl

run-exit_example : run callbacks 5 (exiting, started) ≡ some (ended (passed exiting 2, finished))
unfolding read_insn_word read16 read_n getslice covers load_half load_byte should_exec_next_insn
run-exit_example =
    run-exit exiting started 0xbeffbeff 255 3 refl decode_bkpt refl refl (inl (refl, refl))

main-GoodRun_example : OnSome GoodRun (main 100 true (some image))
main-GoodRun_example = main-GoodRun 100 true (some image)

decode_insn-OperandsFit_example : OperandsFit (Insn.mov_imm_t1 0 7)
decode_insn-OperandsFit_example =
    decode_insn-OperandsFit 0x20073003 (Insn.mov_imm_t1 0 7)
      (ap (λ (d : ℕ × Option Insn). d.1) decode_movs)

disassembly_whole_example :
    (disassembly (Insn.mov_imm_t1 0 7) (disas_ctx state.cpu)
      ≡ concat (disassemble (Insn.mov_imm_t1 0 7) (disas_ctx state.cpu)))
    × (length (disassembly (Insn.mov_imm_t1 0 7) (disas_ctx state.cpu)) ≤ 127)
disassembly_whole_example = disassembly_whole (Insn.mov_imm_t1 0 7) (disas_ctx state.cpu)

movs_text : disassembly (Insn.mov_imm_t1 0 7) (disas_ctx state.cpu) ≡ codes "movs r0, #7"
unfolding disassembly print_calls print_disas_callback disassemble disassembly_i16_mov_imm_t1
    print_opcode print_setflags print_condition print_width print_ri reg_string digits disas_ctx
movs_text = refl

print_calls_lem_example :
    print_calls (codes "b") (codes "ne" ∷ codes ".n" ∷ [])
    ≡ take 127 (codes "b" ++ concat (codes "ne" ∷ codes ".n" ∷ []))
print_calls_lem_example = print_calls_lem (codes "b") (codes "ne" ∷ codes ".n" ∷ []) (omega arith)

-- B to itself plus 4 and twice 5.
abbrev jumped : InsnEmuCtx
jumped = i16_b_t2 (start state) 5

disassemble-run_insn_example :
    EndsWith
      (get_reg jumped reg_pc)
      (last_text (disassemble (relative_insn (narrow 5)) (disas_ctx state.cpu)))
unfolding i16_b_t2 run_insn relative_insn
disassemble-run_insn_example = disassemble-run_insn (narrow 5) (start state) jumped refl refl refl

gdb_dump_memory-Answer_example :
    Answer space 4 3 (getslice space.slices 4 3) (gdb_dump_memory state 4 3)
gdb_dump_memory-Answer_example =
    gdb_dump_memory-Answer state 4 3 space-IsValid (omega arith) (omega arith) (omega arith)

-- A row with six bytes.
abbrev hallo : ℕ → ℕ
hallo i = if i == 0 then 72 else if i == 5 then 32 else 97

hallo_text :
    hexdump_data hallo 6
    ≡ codes
        "6 bytes (0x6) follow:\r\n   0   48 61 61 61  61 20                                      Haaaa.\r\n"
unfolding hexdump_data byte_rounds last_row after_byte blank_rounds char_rounds hexdump_char digits
    pad
hallo_text = refl
