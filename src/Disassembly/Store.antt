-- ===== src/Disassembly/Store.antt =====
-- impl_disassembly.c: stores.
use libthumb2sim.Base.{ℕ, ◌*◌, Bool, List, ◌++◌, ◌==◌, if◌then◌else◌, u8}
use libthumb2sim.Emulation.Shift.{type_lsl}
use libthumb2sim.Disassembly.Text.{Text, codes, decimal}
use libthumb2sim.Disassembly.Print.{DisasCtx, say, print_opcode, reg_string, opcode_wide}
use libthumb2sim.Cpu.{reg_sp}
use libthumb2sim.Disassembly.Operands.{
  print_r_at_rrs, print_r_at_ro, print_rr_at_r_opt, print_r_at_r_opt, print_r_at_rr,
}

unfoldable pub disassembly_i16_str_imm_t1 : DisasCtx → ℕ → ℕ → ℕ → List Text
disassembly_i16_str_imm_t1 ctx rt rn imm =
    print_opcode ctx (codes "str") 0 ++ print_r_at_ro rt rn (imm * 4)

unfoldable pub disassembly_i16_str_imm_t2 : DisasCtx → ℕ → ℕ → List Text
disassembly_i16_str_imm_t2 ctx rt imm =
    print_opcode ctx (codes "str") 0 ++ print_r_at_ro rt reg_sp (imm * 4)

unfoldable pub disassembly_i32_str_imm_t3 : DisasCtx → ℕ → ℕ → ℕ → List Text
disassembly_i32_str_imm_t3 ctx rt rn imm =
    print_opcode ctx (codes "str") opcode_wide ++ print_r_at_r_opt rt rn imm

unfoldable pub disassembly_i32_str_imm_t4 : DisasCtx → ℕ → ℕ → ℕ → Bool → Bool → Bool → List Text
disassembly_i32_str_imm_t4 ctx rt rn imm p u w =
    print_opcode ctx (codes "str") opcode_wide
    ++ (if p
        then say (
            codes " "
            ++ reg_string rt
            ++ codes ", ["
            ++ reg_string rn
            ++ codes ", #"
            ++ (if u then codes "" else codes "-")
            ++ decimal (u8 imm)
            ++ codes "]"
            ++ (if w then codes "!" else codes ""))
        else say (
            codes " "
            ++ reg_string rt
            ++ codes ", ["
            ++ reg_string rn
            ++ codes "], #"
            ++ (if u then codes "" else codes "-")
            ++ decimal (u8 imm)))

unfoldable pub disassembly_i16_str_reg_t1 : DisasCtx → ℕ → ℕ → ℕ → List Text
disassembly_i16_str_reg_t1 ctx rt rn rm = print_opcode ctx (codes "str") 0 ++ print_r_at_rr rt rn rm

unfoldable pub disassembly_i32_str_reg_t2 : DisasCtx → ℕ → ℕ → ℕ → ℕ → List Text
disassembly_i32_str_reg_t2 ctx rt rn rm imm =
    print_opcode ctx (codes "str") opcode_wide
    ++ say (
        codes " "
        ++ reg_string rt
        ++ codes ", ["
        ++ reg_string rn
        ++ codes ", "
        ++ reg_string rm
        ++ codes ", lsl #"
        ++ decimal (u8 imm)
        ++ codes "]")

unfoldable pub disassembly_i16_strb_imm_t1 : DisasCtx → ℕ → ℕ → ℕ → List Text
disassembly_i16_strb_imm_t1 ctx rt rn imm =
    print_opcode ctx (codes "strb") 0 ++ print_r_at_ro rt rn imm

unfoldable pub disassembly_i32_strb_imm_t2 : DisasCtx → ℕ → ℕ → ℕ → List Text
disassembly_i32_strb_imm_t2 ctx rt rn imm =
    print_opcode ctx (codes "strb") opcode_wide ++ print_r_at_r_opt rt rn imm

unfoldable pub disassembly_i32_strb_imm_t3 : DisasCtx → ℕ → ℕ → ℕ → Bool → Bool → Bool → List Text
disassembly_i32_strb_imm_t3 ctx rt rn imm p u w =
    print_opcode ctx (codes "strb") opcode_wide
    ++ (if p
        then say (
            codes " "
            ++ reg_string rt
            ++ codes ", ["
            ++ reg_string rn
            ++ codes ", #"
            ++ (if u then codes "" else codes "-")
            ++ decimal (u8 imm)
            ++ codes "]"
            ++ (if w then codes "!" else codes ""))
        else say (
            codes " "
            ++ reg_string rt
            ++ codes ", ["
            ++ reg_string rn
            ++ codes "], #"
            ++ (if u then codes "" else codes "-")
            ++ decimal (u8 imm)))

unfoldable pub disassembly_i16_strb_reg_t1 : DisasCtx → ℕ → ℕ → ℕ → List Text
disassembly_i16_strb_reg_t1 ctx rt rn rm =
    print_opcode ctx (codes "strb") 0 ++ print_r_at_rr rt rn rm

unfoldable pub disassembly_i32_strb_reg_t2 : DisasCtx → ℕ → ℕ → ℕ → ℕ → List Text
disassembly_i32_strb_reg_t2 ctx rt rn rm imm =
    print_opcode ctx (codes "strb") opcode_wide
    ++ (if imm == 0 then print_r_at_rr rt rn rm else print_r_at_rrs rt rn rm type_lsl imm)

unfoldable pub disassembly_i32_strd_imm_t1 :
    DisasCtx → ℕ → ℕ → ℕ → ℕ → Bool → Bool → Bool → List Text
disassembly_i32_strd_imm_t1 ctx rt rn rtx imm p u w =
    print_opcode ctx (codes "strd") 0 ++ print_rr_at_r_opt rt rtx rn (imm * 4)

unfoldable pub disassembly_i16_strh_imm_t1 : DisasCtx → ℕ → ℕ → ℕ → List Text
disassembly_i16_strh_imm_t1 ctx rt rn imm =
    print_opcode ctx (codes "strh") 0 ++ print_r_at_ro rt rn (imm * 2)

unfoldable pub disassembly_i32_strh_imm_t2 : DisasCtx → ℕ → ℕ → ℕ → List Text
disassembly_i32_strh_imm_t2 ctx rt rn imm =
    print_opcode ctx (codes "strh") opcode_wide ++ print_r_at_ro rt rn imm

unfoldable pub disassembly_i16_strh_reg_t1 : DisasCtx → ℕ → ℕ → ℕ → List Text
disassembly_i16_strh_reg_t1 ctx rt rn rm =
    print_opcode ctx (codes "strh") 0 ++ print_r_at_rr rt rn rm
