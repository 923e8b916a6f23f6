-- ===== src/Disassembly/Trace.antt =====
-- cpu_cm3.c: `cpu_debug_insn` and `cpu_print_state`, as the text they write to stderr.
--
-- What the decoder itself prints about its branches is left out.
use libthumb2sim.Base.{
  ℕ, zero, suc, ◌+◌, ◌-◌, ◌%◌, Bool, true, false, none, some, List, [], ◌∷◌, ◌++◌, ◌==◌,
  if◌then◌else◌, u32, bit_and, length,
}
use libthumb2sim.Cpu.{Cpu, EmuCtx, reg_sp, reg_pc}
use libthumb2sim.Decoder.Decode.{decode_insn}
use libthumb2sim.Emulation.Flags.{
  flag_negative, flag_zero, flag_carry, flag_overflow, flag_saturation,
}
use libthumb2sim.Disassembly.Text.{Text, codes, signed_decimal, hex, hex_padded, pad}
use libthumb2sim.Disassembly.Print.{DisasCtx}
use libthumb2sim.Disassembly.Dispatch.{disassemble}
use libthumb2sim.Disassembly.Buffer.{print_calls}

-- `%<width>...` and `%-<width>s`
abbrev pub right_aligned : ℕ → Text → Text
right_aligned width text = pad 32 (width - length text) text

abbrev pub left_aligned : ℕ → Text → Text
left_aligned width text = text ++ pad 32 (width - length text) []

unfoldable pub flag_text : ℕ → Text
flag_text psr =
    (if bit_and psr flag_negative == 0 then codes " " else codes "N")
    ++ (if bit_and psr flag_zero == 0 then codes " " else codes "Z")
    ++ (if bit_and psr flag_carry == 0 then codes " " else codes "C")
    ++ (if bit_and psr flag_overflow == 0 then codes " " else codes "V")
    ++ (if bit_and psr flag_saturation == 0 then codes " " else codes "Q")

-- The context of the disassembler, from the CPU before the instruction.
unfoldable pub disas_ctx : Cpu → DisasCtx
disas_ctx cpu = record { pc = cpu.reg reg_pc; it_state = cpu.it_state; it_cond = cpu.it_cond }

-- `decode_insn(&disasCtx, insn_word, &disassemblyCallbacks, ...)`: the calls that it makes.
unfoldable pub decoded_calls : Cpu → ℕ → List Text
decoded_calls cpu insn_word = elim ((decode_insn insn_word).1) [
  | none ↦ []
  | some insn ↦ disassemble insn (disas_ctx cpu)
]

abbrev pub is_empty : Text → Bool
is_empty [] = true
is_empty (c ∷ text) = false

-- Without `debug_instruction_decoding` an instruction without a text is decoded once more.
unfoldable pub cpu_debug_insn : Bool → EmuCtx → ℕ → Text
cpu_debug_insn debug_instruction_decoding emu insn_word =
    let cpu = emu.cpu in
    let calls = decoded_calls cpu insn_word in
    let buffer = print_calls [] calls in
    let warning =
      codes "Warning: Cannot disassemble instruction 0x"
      ++ hex_padded 8 insn_word
      ++ codes " at 0x"
      ++ hex (cpu.reg reg_pc)
      ++ codes "\n" in
    let printed =
      if is_empty buffer
      then (if debug_instruction_decoding then buffer else print_calls buffer calls)
      else buffer in
    (if is_empty buffer then warning else [])
    ++ codes "\n< "
    ++ right_aligned 5 (signed_decimal (u32 (1 + cpu.insn_ctr)))
    ++ codes " "
    ++ right_aligned 8 (hex (cpu.reg reg_pc))
    ++ codes ": "
    ++ left_aligned 30 printed
    ++ codes " [sp="
    ++ hex (cpu.reg reg_sp)
    ++ codes "] "
    ++ flag_text cpu.psr
    ++ codes "\n"

unfoldable pub register_name : ℕ → Text
register_name i =
    if i == 0
    then codes "r0"
    else if i == 1
    then codes "r1"
    else if i == 2
    then codes "r2"
    else if i == 3
    then codes "r3"
    else if i == 4
    then codes "r4"
    else if i == 5
    then codes "r5"
    else if i == 6
    then codes "r6"
    else if i == 7
    then codes "r7"
    else if i == 8
    then codes "r8"
    else if i == 9
    then codes "r9"
    else if i == 10
    then codes "r10"
    else if i == 11
    then codes "r11"
    else if i == 12
    then codes "r12"
    else if i == 13
    then codes "sp"
    else if i == 14
    then codes "lr"
    else codes "pc"

-- `for (i = 0; i < 16; i++)` with the rounds left.
unfoldable pub register_rounds : ℕ → ℕ → Cpu → Text
register_rounds zero i cpu = []
register_rounds (suc left) i cpu =
    left_aligned 3 (register_name i)
    ++ codes " = "
    ++ right_aligned 8 (hex (cpu.reg i))
    ++ codes "    "
    ++ (if i % 4 == 3 then codes "\n" else [])
    ++ register_rounds left (i + 1) cpu

unfoldable pub cpu_print_state : Cpu → Text
cpu_print_state cpu =
    register_rounds 16 0 cpu
    ++ codes "PSR = "
    ++ right_aligned 8 (hex cpu.psr)
    ++ codes "    >"
    ++ flag_text cpu.psr
    ++ codes "<\n\n"
