-- ===== src/Disassembly/Move.antt =====
-- impl_disassembly.c: moves and extensions.
use libthumb2sim.Base.{ℕ, ◌*◌, Bool, List, ◌++◌, ◌==◌, if◌then◌else◌, bit_or}
use libthumb2sim.Emulation.Shift.{type_ror}
use libthumb2sim.Disassembly.Text.{Text, codes}
use libthumb2sim.Disassembly.Print.{
  DisasCtx, print_opcode, opcode_wide, opcode_setflags, opcode_setflags_if_uncond,
}
use libthumb2sim.Cpu.{reg_pc}
use libthumb2sim.Disassembly.Operands.{print_rr, print_rrs, print_rri, print_ri}

unfoldable pub disassembly_i16_adr_t1 : DisasCtx → ℕ → ℕ → List Text
disassembly_i16_adr_t1 ctx rd imm =
    print_opcode ctx (codes "add") 0 ++ print_rri rd reg_pc (imm * 4)

unfoldable pub disassembly_i16_mov_imm_t1 : DisasCtx → ℕ → ℕ → List Text
disassembly_i16_mov_imm_t1 ctx rd imm =
    print_opcode ctx (codes "mov") opcode_setflags_if_uncond ++ print_ri rd imm

unfoldable pub disassembly_i32_mov_imm_t2 : DisasCtx → ℕ → ℕ → Bool → List Text
disassembly_i32_mov_imm_t2 ctx rd imm s =
    print_opcode ctx (codes "mov") (bit_or opcode_wide (if s then opcode_setflags else 0))
    ++ print_ri rd imm

unfoldable pub disassembly_i32_mov_imm_t3 : DisasCtx → ℕ → ℕ → List Text
disassembly_i32_mov_imm_t3 ctx rd imm = print_opcode ctx (codes "movw") 0 ++ print_ri rd imm

unfoldable pub disassembly_i16_mov_reg_t1 : DisasCtx → ℕ → ℕ → List Text
disassembly_i16_mov_reg_t1 ctx rd rm = print_opcode ctx (codes "mov") 0 ++ print_rr rd rm

unfoldable pub disassembly_i16_mov_reg_t2 : DisasCtx → ℕ → ℕ → List Text
disassembly_i16_mov_reg_t2 ctx rd rm =
    print_opcode ctx (codes "mov") opcode_setflags_if_uncond ++ print_rr rd rm

unfoldable pub disassembly_i32_movt_t1 : DisasCtx → ℕ → ℕ → List Text
disassembly_i32_movt_t1 ctx rd imm = print_opcode ctx (codes "movt") 0 ++ print_ri rd imm

unfoldable pub disassembly_i32_mvn_imm_t1 : DisasCtx → ℕ → ℕ → Bool → List Text
disassembly_i32_mvn_imm_t1 ctx rd imm s =
    print_opcode ctx (codes "mvn") (bit_or opcode_wide (if s then opcode_setflags else 0))
    ++ print_ri rd imm

unfoldable pub disassembly_i16_mvn_reg_t1 : DisasCtx → ℕ → ℕ → List Text
disassembly_i16_mvn_reg_t1 ctx rd rm =
    print_opcode ctx (codes "mvn") opcode_setflags_if_uncond ++ print_rr rd rm

unfoldable pub disassembly_i32_mvn_reg_t2 : DisasCtx → ℕ → ℕ → ℕ → ℕ → Bool → List Text
disassembly_i32_mvn_reg_t2 ctx rd rm imm shift_type s =
    print_opcode ctx (codes "mvn") (bit_or opcode_wide (if s then opcode_setflags else 0))
    ++ print_rrs rd rm shift_type imm

unfoldable pub disassembly_i16_rev16_t1 : DisasCtx → ℕ → ℕ → List Text
disassembly_i16_rev16_t1 ctx rd rm = print_opcode ctx (codes "rev16") 0 ++ print_rr rd rm

unfoldable pub disassembly_i16_rev_t1 : DisasCtx → ℕ → ℕ → List Text
disassembly_i16_rev_t1 ctx rd rm = print_opcode ctx (codes "rev") 0 ++ print_rr rd rm

unfoldable pub disassembly_i32_rev_t2 : DisasCtx → ℕ → ℕ → ℕ → List Text
disassembly_i32_rev_t2 ctx rd rm rmx = print_opcode ctx (codes "rev") opcode_wide ++ print_rr rd rm

unfoldable pub disassembly_i16_revsh_t1 : DisasCtx → ℕ → ℕ → List Text
disassembly_i16_revsh_t1 ctx rd rm = print_opcode ctx (codes "revsh") 0 ++ print_rr rd rm

unfoldable pub disassembly_i32_sxtb16_t1 : DisasCtx → ℕ → ℕ → ℕ → List Text
disassembly_i32_sxtb16_t1 ctx rd rm rotate = print_opcode ctx (codes "sxtb") 0 ++ print_rr rd rm

unfoldable pub disassembly_i16_sxtb_t1 : DisasCtx → ℕ → ℕ → List Text
disassembly_i16_sxtb_t1 ctx rd rm = print_opcode ctx (codes "sxtb") 0 ++ print_rr rd rm

unfoldable pub disassembly_i16_sxth_t1 : DisasCtx → ℕ → ℕ → List Text
disassembly_i16_sxth_t1 ctx rd rm = print_opcode ctx (codes "sxth") 0 ++ print_rr rd rm

unfoldable pub disassembly_i16_uxtb_t1 : DisasCtx → ℕ → ℕ → List Text
disassembly_i16_uxtb_t1 ctx rd rm = print_opcode ctx (codes "uxtb") 0 ++ print_rr rd rm

unfoldable pub disassembly_i32_uxtb_t2 : DisasCtx → ℕ → ℕ → ℕ → List Text
disassembly_i32_uxtb_t2 ctx rd rm rotate =
    (if rotate == 0
      then print_opcode ctx (codes "uxtb") opcode_wide ++ print_rr rd rm
      else print_opcode ctx (codes "uxtb") opcode_wide ++ print_rrs rd rm type_ror (rotate * 8))

unfoldable pub disassembly_i16_uxth_t1 : DisasCtx → ℕ → ℕ → List Text
disassembly_i16_uxth_t1 ctx rd rm = print_opcode ctx (codes "uxth") 0 ++ print_rr rd rm

unfoldable pub disassembly_i32_uxth_t2 : DisasCtx → ℕ → ℕ → ℕ → List Text
disassembly_i32_uxth_t2 ctx rd rm rotate =
    (if rotate == 0
      then print_opcode ctx (codes "uxth") opcode_wide ++ print_rr rd rm
      else print_opcode ctx (codes "uxth") opcode_wide ++ print_rrs rd rm type_ror (rotate * 8))
