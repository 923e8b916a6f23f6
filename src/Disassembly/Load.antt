-- ===== src/Disassembly/Load.antt =====
-- impl_disassembly.c: loads.
use libthumb2sim.Base.{ℕ, ◌*◌, Bool, List, [], ◌++◌, ◌==◌, if◌then◌else◌, sub32}
use libthumb2sim.Emulation.Shift.{type_lsl}
use libthumb2sim.Disassembly.Text.{Text, codes}
use libthumb2sim.Disassembly.Print.{DisasCtx, say, print_opcode, opcode_wide}
use libthumb2sim.Cpu.{reg_sp, reg_pc}
use libthumb2sim.Disassembly.Operands.{
  print_r_at_rrs, print_r_at_ro, print_rr_at_r_opt, print_r_at_r_opt, print_r_at_r_i,
  print_rr_at_r_i, print_r_at_rr,
}

unfoldable pub disassembly_i16_ldr_imm_t1 : DisasCtx → ℕ → ℕ → ℕ → List Text
disassembly_i16_ldr_imm_t1 ctx rt rn imm =
    print_opcode ctx (codes "ldr") 0 ++ print_r_at_ro rt rn (imm * 4)

unfoldable pub disassembly_i16_ldr_imm_t2 : DisasCtx → ℕ → ℕ → List Text
disassembly_i16_ldr_imm_t2 ctx rt imm =
    print_opcode ctx (codes "ldr") 0 ++ print_r_at_ro rt reg_sp (imm * 4)

unfoldable pub disassembly_i32_ldr_imm_t3 : DisasCtx → ℕ → ℕ → ℕ → List Text
disassembly_i32_ldr_imm_t3 ctx rt rn imm =
    print_opcode ctx (codes "ldr") opcode_wide ++ print_r_at_r_opt rt rn imm

unfoldable pub disassembly_i32_ldr_imm_t4 : DisasCtx → ℕ → ℕ → ℕ → Bool → Bool → Bool → List Text
disassembly_i32_ldr_imm_t4 ctx rt rn imm p u w =
    print_opcode ctx (codes "ldr") opcode_wide
    ++ (if p
        then print_r_at_r_opt rt rn (if u then imm else sub32 0 imm)
          ++ (if w then say (codes "!") else [])
        else print_r_at_r_i rt rn (if u then imm else sub32 0 imm))

unfoldable pub disassembly_i16_ldr_lit_t1 : DisasCtx → ℕ → ℕ → List Text
disassembly_i16_ldr_lit_t1 ctx rt imm =
    print_opcode ctx (codes "ldr") 0 ++ print_r_at_ro rt reg_pc (imm * 4)

unfoldable pub disassembly_i32_ldr_lit_t2 : DisasCtx → ℕ → ℕ → Bool → List Text
disassembly_i32_ldr_lit_t2 ctx rt imm u =
    print_opcode ctx (codes "ldr") opcode_wide
    ++ print_r_at_ro rt reg_pc (if u then imm else sub32 0 imm)

unfoldable pub disassembly_i16_ldr_reg_t1 : DisasCtx → ℕ → ℕ → ℕ → List Text
disassembly_i16_ldr_reg_t1 ctx rt rn rm = print_opcode ctx (codes "ldr") 0 ++ print_r_at_rr rt rn rm

unfoldable pub disassembly_i32_ldr_reg_t2 : DisasCtx → ℕ → ℕ → ℕ → ℕ → List Text
disassembly_i32_ldr_reg_t2 ctx rt rn rm imm =
    print_opcode ctx (codes "ldr") opcode_wide ++ print_r_at_rrs rt rn rm type_lsl imm

unfoldable pub disassembly_i16_ldrb_imm_t1 : DisasCtx → ℕ → ℕ → ℕ → List Text
disassembly_i16_ldrb_imm_t1 ctx rt rn imm =
    print_opcode ctx (codes "ldrb") 0 ++ print_r_at_ro rt rn imm

unfoldable pub disassembly_i32_ldrb_imm_t2 : DisasCtx → ℕ → ℕ → ℕ → List Text
disassembly_i32_ldrb_imm_t2 ctx rt rn imm =
    print_opcode ctx (codes "ldrb") opcode_wide ++ print_r_at_r_opt rt rn imm

unfoldable pub disassembly_i32_ldrb_imm_t3 : DisasCtx → ℕ → ℕ → ℕ → Bool → Bool → Bool → List Text
disassembly_i32_ldrb_imm_t3 ctx rt rn imm p u w =
    print_opcode ctx (codes "ldrb") opcode_wide
    ++ (if p
        then print_r_at_r_opt rt rn (if u then imm else sub32 0 imm)
          ++ (if w then say (codes "!") else [])
        else print_r_at_r_i rt rn (if u then imm else sub32 0 imm))

unfoldable pub disassembly_i16_ldrb_reg_t1 : DisasCtx → ℕ → ℕ → ℕ → List Text
disassembly_i16_ldrb_reg_t1 ctx rt rn rm =
    print_opcode ctx (codes "ldrb") 0 ++ print_r_at_rr rt rn rm

unfoldable pub disassembly_i32_ldrb_reg_t2 : DisasCtx → ℕ → ℕ → ℕ → ℕ → List Text
disassembly_i32_ldrb_reg_t2 ctx rt rn rm imm =
    print_opcode ctx (codes "ldrb") opcode_wide
    ++ (if imm == 0 then print_r_at_rr rt rn rm else print_r_at_rrs rt rn rm type_lsl imm)

unfoldable pub disassembly_i32_ldrd_imm_t1 :
    DisasCtx → ℕ → ℕ → ℕ → ℕ → Bool → Bool → Bool → List Text
disassembly_i32_ldrd_imm_t1 ctx rt rn rtx imm p u w =
    print_opcode ctx (codes "ldrd") 0
    ++ (if p
        then print_rr_at_r_opt rt rtx rn (if u then (imm * 4) else sub32 0 (imm * 4))
        else print_rr_at_r_i rt rtx rn (if u then (imm * 4) else sub32 0 (imm * 4)))

unfoldable pub disassembly_i16_ldrh_imm_t1 : DisasCtx → ℕ → ℕ → ℕ → List Text
disassembly_i16_ldrh_imm_t1 ctx rt rn imm =
    print_opcode ctx (codes "ldrh") 0 ++ print_r_at_ro rt rn (imm * 2)

unfoldable pub disassembly_i32_ldrh_imm_t2 : DisasCtx → ℕ → ℕ → ℕ → List Text
disassembly_i32_ldrh_imm_t2 ctx rt rn imm =
    print_opcode ctx (codes "ldrh") opcode_wide ++ print_r_at_r_opt rt rn imm

unfoldable pub disassembly_i16_ldrh_reg_t1 : DisasCtx → ℕ → ℕ → ℕ → List Text
disassembly_i16_ldrh_reg_t1 ctx rt rn rm =
    print_opcode ctx (codes "ldrh") 0 ++ print_r_at_rr rt rn rm

unfoldable pub disassembly_i16_ldrsb_reg_t1 : DisasCtx → ℕ → ℕ → ℕ → List Text
disassembly_i16_ldrsb_reg_t1 ctx rt rn rm =
    print_opcode ctx (codes "ldrsb") 0 ++ print_r_at_rr rt rn rm

unfoldable pub disassembly_i32_ldrsh_imm_t1 : DisasCtx → ℕ → ℕ → ℕ → List Text
disassembly_i32_ldrsh_imm_t1 ctx rt rn imm =
    print_opcode ctx (codes "ldrsh") opcode_wide ++ print_r_at_r_opt rt rn imm

unfoldable pub disassembly_i16_ldrsh_reg_t1 : DisasCtx → ℕ → ℕ → ℕ → List Text
disassembly_i16_ldrsh_reg_t1 ctx rt rn rm =
    print_opcode ctx (codes "ldrsh") 0 ++ print_r_at_rr rt rn rm
