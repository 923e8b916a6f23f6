-- ===== src/Disassembly/Branch.antt =====
-- impl_disassembly.c: branches and IT.
use libthumb2sim.Base.{
  ℕ, zero, suc, ◌+◌, ◌-◌, ◌/◌, ◌^◌, Bool, List, [], ◌++◌, ◌==◌, if◌then◌else◌, add32, mul32,
  bit_and, bit_or,
}
use libthumb2sim.Emulation.Shift.{type_lsl}
use libthumb2sim.Disassembly.Text.{Text, codes, hex}
use libthumb2sim.Disassembly.Print.{
  DisasCtx, say, print_opcode, reg_string, cc_string, opcode_wide, opcode_narrow,
  opcode_isconditional,
}
use libthumb2sim.Base.{◌-◌, leb, sub32}
use libthumb2sim.Emulation.Branch.{it_len_rounds}
use libthumb2sim.Disassembly.Operands.{print_r, print_at_rr, print_at_rrs}

-- The disassembler's own copy of this function.
unfoldable pub relative_branch_target : ℕ → ℕ → ℕ → ℕ
relative_branch_target pc immediate imm_bits =
    if leb (2 ^ (imm_bits - 1)) immediate
    then add32 (sub32 pc (add32 4 (mul32 2 (sub32 (2 ^ imm_bits) immediate)))) 8
    else add32 (add32 pc (mul32 2 immediate)) 4

-- `for (i = 0; i < len; i++)` with the rounds left: the letters after the name of IT.
unfoldable pub it_letters : ℕ → ℕ → ℕ → ℕ → Text
it_letters zero i mask match = []
it_letters (suc left) i mask match =
    (if bit_and (mask / 2 ^ (3 - i)) 1 == match then codes "t" else codes "e")
    ++ it_letters left (i + 1) mask match

-- The name that is put together in `char opcode[8]`.
unfoldable pub it_opcode : ℕ → ℕ → Text
it_opcode firstcond mask =
    codes "it" ++ it_letters (it_len_rounds 3 0 mask 3) 0 mask (bit_and firstcond 1)

unfoldable pub disassembly_i16_b_t1 : DisasCtx → ℕ → ℕ → List Text
disassembly_i16_b_t1 ctx imm cond =
    print_opcode ctx (codes "b") (bit_or opcode_narrow (opcode_isconditional cond))
    ++ say (codes " 0x" ++ hex (relative_branch_target ctx.pc imm 8))

unfoldable pub disassembly_i16_b_t2 : DisasCtx → ℕ → List Text
disassembly_i16_b_t2 ctx imm =
    print_opcode ctx (codes "b") opcode_narrow
    ++ say (codes " 0x" ++ hex (relative_branch_target ctx.pc imm 11))

unfoldable pub disassembly_i32_b_t3 : DisasCtx → ℕ → ℕ → List Text
disassembly_i32_b_t3 ctx imm cond =
    print_opcode ctx (codes "b") (bit_or opcode_wide (opcode_isconditional cond))
    ++ say (codes " 0x" ++ hex (add32 (add32 ctx.pc (mul32 2 imm)) 4))

unfoldable pub disassembly_i32_b_t4 : DisasCtx → ℕ → List Text
disassembly_i32_b_t4 ctx imm =
    print_opcode ctx (codes "b") opcode_wide
    ++ say (codes " 0x" ++ hex (add32 (add32 ctx.pc (mul32 2 imm)) 4))

unfoldable pub disassembly_i32_bl_t1 : DisasCtx → ℕ → List Text
disassembly_i32_bl_t1 ctx imm =
    print_opcode ctx (codes "bl") 0
    ++ say (codes " 0x" ++ hex (add32 (add32 ctx.pc (mul32 2 imm)) 4))

unfoldable pub disassembly_i16_blx_reg_t1 : DisasCtx → ℕ → List Text
disassembly_i16_blx_reg_t1 ctx rm = print_opcode ctx (codes "blx") 0 ++ print_r rm

unfoldable pub disassembly_i16_bx_t1 : DisasCtx → ℕ → List Text
disassembly_i16_bx_t1 ctx rm = print_opcode ctx (codes "bx") 0 ++ print_r rm

unfoldable pub disassembly_i16_cbnz_t1 : DisasCtx → ℕ → ℕ → Bool → List Text
disassembly_i16_cbnz_t1 ctx rn imm op =
    print_opcode ctx (if op then codes "cbnz" else codes "cbz") 0
    ++ say (codes " " ++ reg_string rn ++ codes ", 0x" ++ hex (relative_branch_target ctx.pc imm 7))

unfoldable pub disassembly_i16_it_t1 : DisasCtx → ℕ → ℕ → List Text
disassembly_i16_it_t1 ctx firstcond mask =
    print_opcode ctx (it_opcode firstcond mask) 0 ++ say (codes " " ++ cc_string firstcond)

unfoldable pub disassembly_i32_tbb_t1 : DisasCtx → ℕ → ℕ → Bool → List Text
disassembly_i32_tbb_t1 ctx rn rm h =
    (if h
      then print_opcode ctx (codes "tbh") 0 ++ print_at_rrs rn rm type_lsl 1
      else print_opcode ctx (codes "tbb") 0 ++ print_at_rr rn rm)
